-- ===== src/Engine/Memory.antt =====
-- The per-host memory of src/hermes_sentinel/health_engine.py as a dict.
use hermes_sentinel.Base.{
  ◌≡◌, refl, String, true, false, [], ◌∷◌, some, str_eq, eq_iff, arith, Bool-cases, inl, inr,
}
use hermes_sentinel.Resolver.{HostStateResolution}
use hermes_sentinel.Engine.{Memory, recall, remember}

str_eq_self : (s : String) → str_eq s s ≡ true
str_eq_self s = (eq_iff s s).1 refl

pub recall-remember :
    (name : String) (r : HostStateResolution) (m : Memory)
    → recall name (remember name r m) ≡ some r
unfolding recall remember
recall-remember name r [] = rw (str_eq_self name)
recall-remember name r ((n, s) ∷ m) = elim (Bool-cases (str_eq n name)) [
  | inl h ↦ rw (h, h)
  | inr h ↦ rw (h, h) (recall-remember name r m)
]

pub recall-remember_other :
    (key name : String) (r : HostStateResolution) (m : Memory)
    → str_eq name key ≡ false
    → recall key (remember name r m) ≡ recall key m
unfolding recall remember
recall-remember_other key name r [] d = rw d
recall-remember_other key name r ((n, s) ∷ m) d =
    let rest = recall-remember_other key name r m d in
    let same : str_eq n name ≡ true → n ≡ name = (eq_iff n name).0 in ground arith
