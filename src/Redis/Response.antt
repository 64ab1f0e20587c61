-- ===== src/Redis/Response.antt =====
-- The replies of the server, as redis_client.hpp holds them. The tag and the members that go with it
-- are one constructor; the other members keep their defaults, which the accessors return.
use sandobox_cpp.Base.{ℕ, ℤ, pos, Bytes, List, [], ◌∷◌, Bool, true, false}

mutual
  pub data Response : Type 0 where
    nil : Response
    error : ℤ → Bytes → Response
    str : Bytes → Response
    int : ℤ → Response
    -- the bit pattern of the double
    dbl : ℕ → Response
    arr : Responses → Response

  -- std::vector<Response>
  pub data Responses : Type 0 where
    end : Responses
    cons : Response → Responses → Responses

abbrev pub is_nil : Response → Bool
is_nil nil = true
is_nil _ = false

abbrev pub is_error : Response → Bool
is_error (error code message) = true
is_error _ = false

abbrev pub as_str : Response → Bytes
as_str (str s) = s
as_str _ = []

abbrev pub err_msg : Response → Bytes
err_msg (error code message) = message
err_msg _ = []

abbrev pub as_int : Response → ℤ
as_int (int n) = n
as_int _ = pos 0

abbrev pub to_list : Responses → List Response
to_list end = []
to_list (cons x xs) = x ∷ to_list xs

abbrev pub as_arr : Response → List Response
as_arr (arr xs) = to_list xs
as_arr _ = []
