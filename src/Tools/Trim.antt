-- ===== src/Tools/Trim.antt =====
-- `strings.Trim` with the set that cmd/addr_build/main.go and cmd/addr_decode/main.go give it.
use cardano_go.Common.{
  All, Bool, Bytes, [], ap, false, if◌then◌else◌, refl, true, ℕ, ◌++◌, ◌==◌, ◌||◌, ◌∙◌, ◌∷◌, ◌≡◌,
}

-- A blank or a quote.
abbrev pub is_cut : ℕ → Bool
is_cut c = c == 32 || c == 34

abbrev pub trim_left : Bytes → Bytes
trim_left [] = []
trim_left (c ∷ s) = let rest : Bytes = trim_left s in if is_cut c then rest else c ∷ s

abbrev pub trim_right : Bytes → Bytes
trim_right [] = []
trim_right (c ∷ s) = elim (trim_right s) [
  | [] ↦ if is_cut c then [] else c ∷ []
  | d ∷ r ↦ c ∷ d ∷ r
]

-- `strings.Trim(s, " \"")`
abbrev pub trim : Bytes → Bytes
trim s = trim_right (trim_left s)

abbrev pub AllCut : Bytes → Type 0
AllCut = All (λ (c : ℕ). is_cut c ≡ true)

abbrev pub NoneCut : Bytes → Type 0
NoneCut = All (λ (c : ℕ). is_cut c ≡ false)

trim_left-append : (pre s : Bytes) → AllCut pre → trim_left (pre ++ s) ≡ trim_left s
trim_left-append [] s h = refl
trim_left-append (c ∷ pre) s h = rw h.0 (trim_left-append pre s h.1)

trim_right-AllCut : (s : Bytes) → AllCut s → trim_right s ≡ []
trim_right-AllCut [] h = refl
trim_right-AllCut (c ∷ s) h = rw (trim_right, trim_right-AllCut s h.1, h.0) refl

trim_right-append : (s post : Bytes) → NoneCut s → AllCut post → trim_right (s ++ post) ≡ s
trim_right-append [] post h k = trim_right-AllCut post k
trim_right-append (c ∷ []) post h k = rw (trim_right, trim_right-AllCut post k, h.0) refl
trim_right-append (c ∷ d ∷ s) post h k = rw (trim_right, trim_right-append (d ∷ s) post h.1 k) refl

-- What stands between blanks and quotes, and has none of them itself.
pub trim-between :
    (pre s post : Bytes) → AllCut pre → NoneCut s → AllCut post → trim (pre ++ (s ++ post)) ≡ s
trim-between pre [] post h n k = ap trim_right (trim_left-append pre post h ∙ all_left post k)
  where
    all_left : (t : Bytes) → AllCut t → trim_left t ≡ []
    all_left [] a = refl
    all_left (c ∷ t) a = rw a.0 (all_left t a.1)
trim-between pre (c ∷ s) post h n k =
    ap trim_right (trim_left-append pre (c ∷ (s ++ post)) h)
    ∙ rw n.0 (trim_right-append (c ∷ s) post n k)
