-- ===== src/FdPool/Arguments.antt =====
-- cmd/rpc/cmd.go: the command line of `runCommandWithVirtualFiles`, from a list of arguments.
use cardano_go.Common.{
  All, Bool-cases, Bytes, List, Option, [], ap, arith, codes, false, has_prefix, inl, inr, length,
  ltb, none, refl, some, suc, zero, ℕ, ◌%◌, ◌++◌, ◌+◌, ◌/◌, ◌==◌, ◌∙◌, ◌∷◌, ◌≡◌, ◌≤◌,
}
use cardano_go.FdPool.Files.{span_word, lookup_file, file_mark, fields}
use cardano_go.Http.Text.{is_space, is_blank, trim_right, trim_space, show, show_from}

-- An argument of a command: a word, or a reference to a file by its name.
pub data Argument : Type 0 where
  word file : Bytes → Argument

abbrev pub text : Argument → Bytes
text (word w) = w
text (file name) = file_mark ++ name

-- The end of the text, or a blank and more of it.
abbrev pub behind : Option Bytes → Bytes
behind none = []
behind (some s) = 32 ∷ s

abbrev pub rest_of : Option Bytes → Bytes
rest_of none = []
rest_of (some s) = s

-- The command line: the arguments with a blank between two of them.
abbrev pub line : List Argument → Bytes
line [] = []
line (a ∷ []) = text a ++ behind none
line (a ∷ b ∷ args) = text a ++ behind (some (line (b ∷ args)))

abbrev pub HasNoSpace : Bytes → Type 0
HasNoSpace s = All (λ c. is_space c ≡ false) s

abbrev pub HasNoMark : Bytes → Type 0
HasNoMark [] = Unit
HasNoMark (c ∷ s) = (has_prefix (c ∷ s) file_mark ≡ false) × HasNoMark s

-- What can be written in a command line: nothing with a space, and no empty word.
abbrev pub IsPlain : Argument → Type 0
IsPlain (word w) = (1 ≤ length w) × HasNoSpace w × HasNoMark w
IsPlain (file name) = HasNoSpace name

-- What the command gets: a file that it has is named by its descriptor.
abbrev pub passed : List (Bytes × ℕ) → Argument → Bytes
passed fds (word w) = w
passed fds (file name) = elim (lookup_file name fds) [
  | some fd ↦ codes "/dev/fd/" ++ show fd
  | none ↦ file_mark ++ name
]

digit-is_space : (d : ℕ) → is_space (d + 48) ≡ false
digit-is_space d = ground arith

pub HasNoSpace-show_from : (f n : ℕ) (s : Bytes) → HasNoSpace s → HasNoSpace (show_from f n s)
unfolding show_from
HasNoSpace-show_from zero n s h = h
HasNoSpace-show_from (suc f) n s h =
    let here : is_space (n % 10 + 48) ≡ false = digit-is_space (n % 10) in
    let rest : HasNoSpace (show_from f (n / 10) ((n % 10 + 48) ∷ s)) =
      HasNoSpace-show_from f (n / 10) ((n % 10 + 48) ∷ s) (here, h) in
    elim (Bool-cases (ltb n 10)) [ inl e ↦ rw e (digit-is_space n, h) | inr e ↦ rw e rest ]

abbrev add_to : ℕ → List Bytes → List Bytes
add_to c [] = (c ∷ []) ∷ []
add_to c (l ∷ ls) = (c ∷ l) ∷ ls

fields-step :
    (c d : ℕ) (s : Bytes)
    → is_space c ≡ false
    → is_space d ≡ false
    → fields (c ∷ d ∷ s) ≡ add_to c (fields (d ∷ s))
unfolding fields
fields-step c d s e f = rw e (rw f refl)

fields-last :
    (c : ℕ) (o : Option Bytes)
    → is_space c ≡ false
    → fields (c ∷ behind o) ≡ (c ∷ []) ∷ fields (rest_of o)
unfolding fields
fields-last c none e = rw e refl
fields-last c (some s) e = rw e refl

pub fields-behind :
    (w : Bytes) (o : Option Bytes)
    → 1 ≤ length w
    → HasNoSpace w
    → fields (w ++ behind o) ≡ w ∷ fields (rest_of o)
fields-behind [] o l h = absurd (omega (arith, l))
fields-behind (c ∷ []) o l h = fields-last c o h.0
fields-behind (c ∷ d ∷ w) o l h =
    fields-step c d (w ++ behind o) h.0 h.1.0
    ∙ ap (add_to c) (fields-behind (d ∷ w) o (omega arith) h.1)

is_blank-is_space : (c : ℕ) → is_space c ≡ false → is_blank c ≡ false
is_blank-is_space c h = ground (arith, h)

pub span_word-behind :
    (name : Bytes) (o : Option Bytes)
    → HasNoSpace name
    → span_word (name ++ behind o) ≡ (name, behind o)
span_word-behind [] none h = refl
span_word-behind [] (some s) h = refl
span_word-behind (c ∷ name) o h =
    rw (is_blank-is_space c h.0) (rw (span_word-behind name o h.1) refl)

trim_right-id : (s : Bytes) → HasNoSpace s → trim_right s ≡ s
trim_right-id [] h = refl
trim_right-id (c ∷ []) h = rw h.0 refl
trim_right-id (c ∷ d ∷ s) h = rw (trim_right-id (d ∷ s) h.1) refl

pub trim_space-id : (s : Bytes) → HasNoSpace s → trim_space s ≡ s
trim_space-id [] h = refl
trim_space-id (c ∷ s) h = rw h.0 (trim_right-id (c ∷ s) h)

pub has_prefix-behind :
    (s p : Bytes) (o : Option Bytes)
    → HasNoSpace p
    → has_prefix s p ≡ false
    → has_prefix (s ++ behind o) p ≡ false
has_prefix-behind s [] o h e = e
has_prefix-behind [] (p ∷ ps) none h e = refl
has_prefix-behind [] (p ∷ ps) (some s) h e = ground (arith, h.0)
has_prefix-behind (c ∷ s) (p ∷ ps) o h e = elim (Bool-cases (c == p)) [
  | inl f ↦ rw f (has_prefix-behind s ps o h.1 (ground (arith, e, f)))
  | inr f ↦ rw f refl
]

pub mark-HasNoSpace : HasNoSpace file_mark
mark-HasNoSpace = (refl, (refl, (refl, (refl, (refl, (refl, (refl, tt)))))))
