-- ===== src/Http/Codes.antt =====
-- The `str` operations that src/hermes_sentinel/http_api.py and http_server.py apply to header texts,
-- on the code points of a text.
use Prim.Native.Char.{code}
use hermes_sentinel.Base.{
  ℕ, suc, ◌≡◌, refl, String, Bool, true, false, ◌&&◌, ◌||◌, List, [], ◌∷◌, ◌==◌, if◌then◌else◌,
  arith,
}

unfoldable pub codes : String → List ℕ
codes String.[] = []
codes (String.◌∷◌ c t) = code c ∷ codes t

-- equality of two texts
unfoldable pub same : List ℕ → List ℕ → Bool
same [] [] = true
same (c ∷ cs) (d ∷ ds) = c == d && same cs ds
same _ _ = false

-- `any(test(c) for c in text)`
unfoldable pub any : (ℕ → Bool) → List ℕ → Bool
any test [] = false
any test (c ∷ cs) = test c || any test cs

-- `text.count(c)`
unfoldable pub count : ℕ → List ℕ → ℕ
count c [] = 0
count c (d ∷ ds) = if d == c then suc (count c ds) else count c ds

unfoldable pub lstrip : (ℕ → Bool) → List ℕ → List ℕ
lstrip is_space [] = []
lstrip is_space (c ∷ cs) = if is_space c then lstrip is_space cs else c ∷ cs

abbrev pub is_empty : List ℕ → Bool
is_empty [] = true
is_empty (c ∷ cs) = false

unfoldable pub rstrip : (ℕ → Bool) → List ℕ → List ℕ
rstrip is_space [] = []
rstrip is_space (c ∷ cs) =
    let rest = rstrip is_space cs in if is_space c && is_empty rest then [] else c ∷ rest

unfoldable pub strip : (ℕ → Bool) → List ℕ → List ℕ
unfolding lstrip rstrip
strip is_space text = rstrip is_space (lstrip is_space text)

-- `text.split(separator)`: the first part, and the others
unfoldable pub split : ℕ → List ℕ → List ℕ × List (List ℕ)
split separator [] = ([], [])
split separator (c ∷ cs) =
    let rest = split separator cs in
    if c == separator then ([], rest.0 ∷ rest.1) else (c ∷ rest.0, rest.1)

-- what `text.partition(separator)` finds in front of the separator, whether it occurs, and what follows
unfoldable pub partition : ℕ → List ℕ → List ℕ × Bool × List ℕ
partition separator [] = ([], false, [])
partition separator (c ∷ cs) =
    let rest = partition separator cs in
    if c == separator then ([], true, cs) else (c ∷ rest.0, rest.1, rest.2)

pub same_refl : (text : List ℕ) → same text text ≡ true
unfolding same
same_refl [] = refl
same_refl (c ∷ cs) = ground (arith, same_refl cs)

pub same_sound : (cs ds : List ℕ) → same cs ds ≡ true → cs ≡ ds
unfolding same
same_sound [] [] h = refl
same_sound (c ∷ cs) (d ∷ ds) h = ground (arith, same_sound cs ds)
same_sound [] (d ∷ ds) h = cc
same_sound (c ∷ cs) [] h = cc
