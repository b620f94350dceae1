-- ===== src/Result/Ensures.antt =====
-- What a call ensures: a predicate of the value that it returns and one of the error that it raises,
-- with a rule for each way to build a call.
use hermes_sentinel.Base.{◌≡◌, refl, subst, Bool, true, false, if◌then◌else◌}
use hermes_sentinel.Result.{Error, Result, ok, err, guard, ◌>>=◌, ◌>>◌, construct}

pub data Ensures {A : Type 0} (Q : A → Type 0) (E : Error → Type 0) : Result A → Type 0 where
  returns : {a : A} → Q a → Ensures Q E (ok a)
  raises : {e : Error} → E e → Ensures Q E (err e)

module _ {A B : Type 0} {Q : A → Type 0} {R : B → Type 0} {E : Error → Type 0} where
  pub Ensures-bind :
      {m : Result A} (f : A → Result B)
      → Ensures Q E m
      → ((a : A) → Q a → Ensures R E (f a))
      → Ensures R E (m >>= f)
  Ensures-bind f (returns {a} q) k = k a q
  Ensures-bind f (raises x) k = raises x

module _ {A : Type 0} {Q : A → Type 0} {E : Error → Type 0} where
  pub Ensures-guard :
      (b : Bool) (e : Error) {m : Result A}
      → E e
      → (b ≡ true → Ensures Q E m)
      → Ensures Q E (guard b e >> m)
  Ensures-guard true e x k = k refl
  Ensures-guard false e x k = raises x

  pub Ensures-ok : {r : Result A} {a : A} → Ensures Q E r → r ≡ ok a → Q a
  Ensures-ok (returns q) h = subst Q (cc) q
  Ensures-ok (raises x) h = cc

  pub Ensures-construct :
      (post_init : A → Result (Unit {0})) (a : A)
      → ((e : Error) → post_init a ≡ err e → E e)
      → (post_init a ≡ ok tt → Q a)
      → Ensures Q E (construct post_init a)
  Ensures-construct post_init a x k = go (post_init a) refl
    where
      go : (r : Result (Unit {0})) → post_init a ≡ r → Ensures Q E (r >> ok a)
      go (ok tt) h = returns (k h)
      go (err e) h = raises (x e h)

  pub Ensures-if :
      (b : Bool) {m n : Result A} → Ensures Q E m → Ensures Q E n → Ensures Q E (if b then m else n)
  Ensures-if true km kn = km
  Ensures-if false km kn = kn

-- what is certain of any call that returns
pub Ensures-returned :
    {A : Type 0} {Q : A → Type 0} (m : Result A)
    → ((a : A) → m ≡ ok a → Q a)
    → Ensures Q (λ _. Unit) m
Ensures-returned (ok a) k = returns (k a refl)
Ensures-returned (err e) k = raises tt

module _ {A : Type 0} {Q R : A → Type 0} {E : Error → Type 0} where
  pub Ensures-weaken : {r : Result A} → ((a : A) → Q a → R a) → Ensures Q E r → Ensures R E r
  Ensures-weaken k (returns {a} q) = returns (k a q)
  Ensures-weaken k (raises x) = raises x

  pub Ensures-both :
      {F : Error → Type 0} {r : Result A}
      → Ensures Q E r
      → Ensures R F r
      → Ensures (λ a. Q a × R a) E r
  Ensures-both (returns q) h = returns (q, Ensures-ok h refl)
  Ensures-both (raises x) h = raises x
