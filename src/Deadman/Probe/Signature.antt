-- ===== src/Deadman/Probe/Signature.antt =====
-- The healthy signature of a probe response, described without splitting or stripping.
use hermes_sentinel.Base.{
  ℕ, ◌≡◌, ◌≢◌, ◌↔◌, ◌⊎◌, inl, inr, refl, ap, ◌∙◌, List, [], ◌∷◌, ◌++◌, true, ◌==◌, All, Any, arith,
  Bool-cases, if◌then◌else◌,
}
use hermes_sentinel.Deadman.Types.{healthy}
use hermes_sentinel.Deadman.Probe.{
  DeadManProbeResponse, post, is_blank, split, strip_left, cons_unless_blank, strip_right, strip,
  add_methods, collect_methods, same_codes, contains, post_is_allowed, is_empty,
  classify_deadman_probe,
}

abbrev pub NoComma : List ℕ → Type 0
NoComma cs = All (λ c. c ≢ b',') cs

abbrev pub Blank : List ℕ → Type 0
Blank cs = All (λ c. is_blank c ≡ true) cs

-- the elements of a comma-separated list, put together
abbrev pub join : List ℕ → List (List ℕ) → List ℕ
join t [] = t
join t (u ∷ us) = t ++ b',' ∷ join u us

abbrev pub IsPost : List ℕ → Type 0
IsPost t = (l : List ℕ) × (r : List ℕ) × Blank l × Blank r × (t ≡ l ++ (post ++ r))

-- `v` is a comma-separated list with an element that is POST between blanks.
abbrev pub ListsPost : List ℕ → Type 0
ListsPost v =
    (t : List ℕ) × (ts : List (List ℕ)) × (v ≡ join t ts)
    × All NoComma (t ∷ ts)
    × Any IsPost (t ∷ ts)

-- Splitting inverts putting together, both ways.
split-join : (t : List ℕ) (ts : List (List ℕ)) → All NoComma (t ∷ ts) → split (join t ts) ≡ t ∷ ts
unfolding split
split-join [] [] h = refl
split-join [] (u ∷ us) h = ap (λ (x : List (List ℕ)). [] ∷ x) (split-join u us h.1)
split-join (c ∷ cs) [] h = ground (arith, split-join cs [] (h.0.1, h.1))
split-join (c ∷ cs) (u ∷ us) h = ground (arith, split-join cs (u ∷ us) (h.0.1, h.1))

join-cons : (c : ℕ) (t : List ℕ) (ts : List (List ℕ)) → join (c ∷ t) ts ≡ c ∷ join t ts
join-cons c t [] = refl
join-cons c t (u ∷ us) = refl

record IsSplit (v : List ℕ) : Type 0 where
  first : List ℕ
  rest : List (List ℕ)
  pieces : split v ≡ first ∷ rest
  whole : v ≡ join first rest
  commas : All NoComma (first ∷ rest)

split_lem : (v : List ℕ) → IsSplit v
unfolding split
split_lem [] = record { first = []; rest = []; pieces = refl; whole = refl; commas = (tt, tt) }
split_lem (c ∷ cs) =
    let k = split_lem cs in
    elim (Bool-cases (c == b',')) [
      | inl comma ↦ record {
        first = [];
        rest = k.first ∷ k.rest;
        pieces = ground (arith, k.pieces);
        whole = ground (arith, k.whole);
        commas = (tt, k.commas);
      }
      | inr other ↦ record {
        first = c ∷ k.first;
        rest = k.rest;
        pieces = ground (arith, k.pieces);
        whole = ground (arith, k.whole, join-cons c k.first k.rest);
        commas = (((λ e. ground arith), k.commas.0), k.commas.1);
      }
    ]

-- Stripping takes blanks from both ends.
strip_left-split : (t : List ℕ) → (l : List ℕ) × Blank l × (t ≡ l ++ strip_left t)
unfolding strip_left
strip_left-split [] = ([], tt, refl)
strip_left-split (c ∷ cs) =
    let (l, b, e) = strip_left-split cs in
    elim (Bool-cases (is_blank c)) [
      | inl blank ↦ (c ∷ l, (blank, b), ground arith)
      | inr other ↦ ([], tt, ground arith)
    ]

cons_unless_blank-split :
    (c : ℕ) (s r cs : List ℕ)
    → Blank r
    → cs ≡ s ++ r
    → (r' : List ℕ) × Blank r' × (c ∷ cs ≡ cons_unless_blank c s ++ r')
cons_unless_blank-split c [] r cs b e = elim (Bool-cases (is_blank c)) [
  | inl blank ↦ (c ∷ r, (blank, b), ground arith)
  | inr other ↦ (r, b, ground arith)
]
cons_unless_blank-split c (d ∷ ds) r cs b e = (r, b, cc)

strip_right-split : (t : List ℕ) → (r : List ℕ) × Blank r × (t ≡ strip_right t ++ r)
unfolding strip_right
strip_right-split [] = ([], tt, refl)
strip_right-split (c ∷ cs) =
    let (r, b, e) = strip_right-split cs in cons_unless_blank-split c (strip_right cs) r cs b e

strip_left-Blank : (l t : List ℕ) → Blank l → strip_left (l ++ t) ≡ strip_left t
unfolding strip_left
strip_left-Blank [] t h = refl
strip_left-Blank (c ∷ cs) t h = ground (arith, strip_left-Blank cs t h.1)

strip_right-Blank : (r : List ℕ) → Blank r → strip_right r ≡ []
unfolding strip_right
strip_right-Blank [] h = refl
strip_right-Blank (c ∷ cs) h = ground (arith, strip_right-Blank cs h.1)

strip-IsPost : (t : List ℕ) → (strip t ≡ post) ↔ IsPost t
unfolding strip
strip-IsPost t = (
  λ h.
      let (l, bl, el) = strip_left-split t in
      let (r, br, er) = strip_right-split (strip_left t) in
      (l, r, bl, br, el ∙ ap (λ (x : List ℕ). l ++ x) (er ∙ ap (λ (x : List ℕ). x ++ r) h)),
  λ (l, r, bl, br, e).
      rw (e, strip_left-Blank l (post ++ r) bl)
        (unfold strip_left strip_right in rw (strip_right-Blank r br)),
)

same_codes_iff : (a b : List ℕ) → (same_codes a b ≡ true) ↔ (a ≡ b)
same_codes_iff [] [] = (λ h. refl, λ h. refl)
same_codes_iff [] (d ∷ ds) = (λ h. cc, λ h. cc)
same_codes_iff (c ∷ cs) [] = (λ h. cc, λ h. cc)
same_codes_iff (c ∷ cs) (d ∷ ds) =
    (λ h. ground (arith, same_codes_iff cs ds), λ h. ground (arith, same_codes_iff cs ds))

contains-added :
    (m : List ℕ) (ms : List (List ℕ))
    → (contains post (if is_empty m then ms else m ∷ ms) ≡ true)
      ↔ ((contains post ms ≡ true) ⊎ (m ≡ post))
unfolding contains
contains-added [] ms = (λ h. inl h, λ h. ground arith)
contains-added (c ∷ cs) ms = (
  λ h. ground (arith, same_codes_iff post (c ∷ cs)),
  λ h. ground (arith, same_codes_iff post (c ∷ cs)),
)

-- a disjunction, one step further along a loop
shift : {A B C D E : Type 0} → A ↔ (B ⊎ C) → B ↔ (D ⊎ E) → A ↔ (D ⊎ (E ⊎ C))
shift f g = (
  λ a. elim (f.0 a) [
    | inl b ↦ elim (g.0 b) [ inl d ↦ inl d | inr e ↦ inr (inl e) ]
    | inr c ↦ inr (inr c)
  ],
  elim [
    | inl d ↦ f.1 (inl (g.1 (inl d)))
    | inr (inl e) ↦ f.1 (inl (g.1 (inr e)))
    | inr (inr c) ↦ f.1 (inr c)
  ],
)

sum_right : {A B C : Type 0} → B ↔ C → (A ⊎ B) ↔ (A ⊎ C)
sum_right f =
    (elim [ inl a ↦ inl a | inr b ↦ inr (f.0 b) ], elim [ inl a ↦ inl a | inr c ↦ inr (f.1 c) ])

iff_trans : {A B C : Type 0} → A ↔ B → B ↔ C → A ↔ C
iff_trans f g = (λ a. g.0 (f.0 a), λ c. f.1 (g.1 c))

-- The loops collect POST exactly if it was there before or some element strips to it.
contains-add_methods :
    (ms ts : List (List ℕ))
    → (contains post (add_methods ms ts) ≡ true) ↔ ((contains post ms ≡ true) ⊎ Any IsPost ts)
unfolding add_methods
contains-add_methods ms [] = (λ h. inl h, λ h. ground arith)
contains-add_methods ms (t ∷ ts) =
    shift (contains-add_methods (if is_empty (strip t) then ms else strip t ∷ ms) ts)
      (iff_trans (contains-added (strip t) ms) (sum_right (strip-IsPost t)))

listed_iff : (v : List ℕ) → Any IsPost (split v) ↔ ListsPost v
listed_iff v = (
  λ h. let k = split_lem v in (k.first, k.rest, k.whole, k.commas, rw (k.pieces) at h),
  λ (t, ts, e, commas, h). rw (e, split-join t ts commas) h,
)

contains-collect_methods :
    (ms vs : List (List ℕ))
    → (contains post (collect_methods ms vs) ≡ true)
      ↔ ((contains post ms ≡ true) ⊎ Any ListsPost vs)
unfolding collect_methods
contains-collect_methods ms [] = (λ h. inl h, λ h. ground arith)
contains-collect_methods ms (v ∷ vs) =
    shift (contains-collect_methods (add_methods ms (split v)) vs)
      (iff_trans (contains-add_methods ms (split v)) (sum_right (listed_iff v)))

post_is_allowed_iff : (vs : List (List ℕ)) → (post_is_allowed vs ≡ true) ↔ Any ListsPost vs
unfolding post_is_allowed
post_is_allowed_iff vs = (
  λ h. elim ((contains-collect_methods [] vs).0 h) [ inl e ↦ cc | inr a ↦ a ],
  λ a. (contains-collect_methods [] vs).1 (inr a),
)

-- A probe response is healthy if and only if its status is 405, some `Allow` value lists POST, up to
-- blanks, among its comma-separated elements, and its body is empty.
pub classify-healthy_iff :
    (r : DeadManProbeResponse)
    → (classify_deadman_probe r ≡ healthy)
      ↔ ((r.status ≡ 405) × Any ListsPost r.allow_headers × (r.body ≡ []))
unfolding classify_deadman_probe
classify-healthy_iff r = (
  λ h.
      let allowed : post_is_allowed r.allow_headers ≡ true = ground arith in
      (ground arith, (post_is_allowed_iff r.allow_headers).0 allowed, ground arith),
  λ (e, a, b). let allowed = (post_is_allowed_iff r.allow_headers).1 a in ground arith,
)
