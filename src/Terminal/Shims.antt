-- ===== src/Terminal/Shims.antt =====
-- The shims of the editors, which are written once.
use cicd.Prelude.{◌≡◌, refl, ap, Bool, true, false, List, [], ◌∷◌, arith, Text, if◌then◌else◌}
use cicd.Terminal.{Interceptors, get_interceptor_dir}

abbrev pub untried : Interceptors
untried = record { tried = false; cached_dir = []; writes = 0 }

-- The calls of a daemon, for what each would meet: whether the directory is made and the shims written.
unfoldable pub after_calls : Text → List (Bool × Bool) → Interceptors → Interceptors
unfolding get_interceptor_dir
after_calls dir [] s = s
after_calls dir ((makes, writes) ∷ rest) s =
    after_calls dir rest (get_interceptor_dir dir makes writes s).0

tried-stays :
    (dir : Text) (calls : List (Bool × Bool)) (s : Interceptors)
    → s.tried ≡ true
    → after_calls dir calls s ≡ s
unfolding after_calls get_interceptor_dir
tried-stays dir [] s h = refl
tried-stays dir ((makes, writes) ∷ rest) s h = ground (arith, tried-stays dir rest s h)

-- The first call decides: later calls write nothing, give its directory and no error, also if the first
-- one failed. Then the directory is empty, and no terminal has the shims until the daemon is restarted.
first_call_decides :
    (dir : Text) (makes writes makes_now writes_now : Bool) (calls : List (Bool × Bool))
    → get_interceptor_dir dir makes_now writes_now
        (after_calls dir ((makes, writes) ∷ calls) untried)
      ≡ (
        record {
          tried = true;
          cached_dir = if makes then (if writes then dir else []) else [];
          writes = if makes then 1 else 0;
        },
        (if makes then (if writes then dir else []) else [], true),
      )
unfolding after_calls get_interceptor_dir
first_call_decides dir true true m w calls =
    ap (get_interceptor_dir dir m w)
      (tried-stays dir calls (record { tried = true; cached_dir = dir; writes = 1 }) refl)
first_call_decides dir true false m w calls =
    ap (get_interceptor_dir dir m w)
      (tried-stays dir calls (record { tried = true; cached_dir = []; writes = 1 }) refl)
first_call_decides dir false writes m w calls =
    ap (get_interceptor_dir dir m w)
      (tried-stays dir calls (record { tried = true; cached_dir = []; writes = 0 }) refl)
