-- ===== src/Seccomp/Tests.antt =====
-- The filter on machines where libseccomp works and where it does not.
use sandobox_cpp.Base.{◌≡◌, refl, length, true, false, none, some, map}
use sandobox_cpp.Seccomp.{Answers, essential_names, install_default_filter}

abbrev working : Answers
working = record { init = true; load = true; number = λ name. length name }

filter-loaded : install_default_filter working ≡ (true, some (map length essential_names))
unfolding install_default_filter
filter-loaded = refl

filter-refused : install_default_filter (record working { load = false }) ≡ (false, none)
unfolding install_default_filter
filter-refused = refl
