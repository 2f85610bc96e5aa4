-- ===== src/Execution/Policy/Argv/Images.antt =====
-- What `_IMAGE_PATTERN` of policy.py means, in terms of the characters of a text.
use Prim.Native.Char.{code}
use code_explorer.Base.{
  ℕ, suc, ◌≤◌, String, true, List, [], ◌∷◌, ◌≡◌, ◌↔◌, refl, arith, ◌⊎◌, All, In, length,
}
use code_explorer.Execution.Policy.Argv.{is_alnum, is_mark, rest_matches, image_matches}

-- The characters of a text, as code points.
abbrev codes : String → List ℕ
codes String.[] = []
codes (String.◌∷◌ c s) = code c ∷ codes s

abbrev Alphanumeric : ℕ → Type 0
Alphanumeric c = ((b'A' ≤ c) × (c ≤ b'Z')) ⊎ ((b'a' ≤ c) × (c ≤ b'z')) ⊎ ((b'0' ≤ c) × (c ≤ b'9'))

abbrev Mark : ℕ → Type 0
Mark c = In c (b'.' ∷ b'_' ∷ b'/' ∷ b':' ∷ b'@' ∷ b'-' ∷ [])

-- A letter or a digit, and after it at most 254 characters, each a letter, a digit or a mark.
pub record IsImage (s : String) : Type 0 where
  pub head : ℕ
  pub tail : List ℕ
  pub characters : codes s ≡ head ∷ tail
  pub starts : Alphanumeric head
  pub goes_on : All (λ c. Alphanumeric c ⊎ Mark c) tail
  pub short : length tail ≤ 254

is_alnum_iff : (c : ℕ) → (is_alnum c ≡ true) ↔ Alphanumeric c
unfolding is_alnum
is_alnum_iff c = ground arith

is_mark_iff : (c : ℕ) → (is_mark c ≡ true) ↔ Mark c
unfolding is_mark
is_mark_iff c = ground arith

rest_matches_iff :
    (n : ℕ) (s : String)
    → (rest_matches n s ≡ true)
      ↔ (All (λ c. Alphanumeric c ⊎ Mark c) (codes s) × (length (codes s) ≤ n))
unfolding rest_matches
rest_matches_iff n String.[] = (λ _. (tt, omega arith), λ _. refl)
rest_matches_iff ℕ.zero (String.◌∷◌ c s) = (λ h. cc h, λ k. ground (arith, k.1))
rest_matches_iff (suc n) (String.◌∷◌ c s) =
    ground (arith, is_alnum_iff (code c), is_mark_iff (code c), rest_matches_iff n s)

same_text : (c d : ℕ) (cs ds : List ℕ) → c ∷ cs ≡ d ∷ ds → (c ≡ d) × (cs ≡ ds)
same_text c d cs ds e = (cc e, cc e)

pub image_matches_iff : (s : String) → (image_matches s ≡ true) ↔ IsImage s
unfolding image_matches
image_matches_iff String.[] = (λ h. cc h, λ k. cc k.characters)
image_matches_iff (String.◌∷◌ c s) = (
  λ h.
      let (ok, short) = (rest_matches_iff 254 s).0 (ground (arith, h)) in
      record {
        head = code c;
        tail = codes s;
        characters = refl;
        starts = (is_alnum_iff (code c)).0 (ground (arith, h));
        goes_on = ok;
        short = short;
      },
  λ k.
      let (here, later) = same_text (code c) k.head (codes s) k.tail k.characters in
      ground (
        arith,
        (is_alnum_iff (code c)).1 (rw here k.starts),
        (rest_matches_iff 254 s).1 (rw later (k.goes_on, k.short)),
      ),
)
