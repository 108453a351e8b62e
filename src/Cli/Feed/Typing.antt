-- ===== src/Cli/Feed/Typing.antt =====
-- What is typed: bytes added to a line, until it is full.
use regtable.Prelude.{ℕ, ◌+◌, ◌-◌, ◌<◌, ◌≤◌, ◌≡◌, ◌∙◌, sym, ap, refl, arith, inl, inr}
use regtable.Prelude.{Bool, true, false, ◌||◌, ltb, ◌==◌, if◌then◌else◌, Bool-cases}
use regtable.Prelude.{[], ◌∷◌, ◌++◌, length, length-append}
use mathlib.Core.List.{append-nil, append_assoc}
use regtable.Core.Types.{Text}
use regtable.Cli.Feed.{buf_size, c_string}
use regtable.Cli.Feed.Refine.{Line}

-- A byte that is neither the end of a line, nor a backspace, nor NUL.
abbrev pub IsChar : ℕ → Type 0
IsChar x =
    ((x == b'\n' || x == b'\r') ≡ false) × ((x == 8 || x == 0x7F) ≡ false) × ((x == 0) ≡ false)

abbrev pub AllChars : Text → Type 0
AllChars [] = Unit
AllChars (x ∷ s) = IsChar x × AllChars s

-- One byte more.
abbrev pub push : Line → ℕ → Line
push l x =
    if ltb (length l.text) (buf_size - 1)
    then record l { text = l.text ++ (x ∷ []) }
    else record l { cut = true }

unfoldable pub push_all : Line → Text → Line
push_all l [] = l
push_all l (x ∷ s) = push_all (push l x) s

pushed :
    (t : Text) (x : ℕ) (cut : Bool)
    → ltb (length t) (buf_size - 1) ≡ true
    → push (record { text = t; cut = cut }) x ≡ record { text = t ++ (x ∷ []); cut = cut }
pushed t x cut fits = rw fits

push_cut :
    (t : Text) (x : ℕ) (cut : Bool)
    → ltb (length t) (buf_size - 1) ≡ false
    → push (record { text = t; cut = cut }) x ≡ record { text = t; cut = true }
push_cut t x cut full = rw full

pub push_all-fits :
    (t s : Text) (cut : Bool)
    → length t + length s < buf_size
    → push_all (record { text = t; cut = cut }) s ≡ record { text = t ++ s; cut = cut }
unfolding push_all
push_all-fits t [] cut h = let same = sym (append-nil t) in λ i. record { text = same i; cut = cut }
push_all-fits t (x ∷ s) cut h =
    ap (λ l. push_all l s) (pushed t x cut (ground arith))
    ∙ push_all-fits (t ++ (x ∷ [])) s cut (omega (arith, length-append t (x ∷ [])))
    ∙ (let same = append_assoc t (x ∷ []) s in λ i. record { text = same i; cut = cut })

push_all-cut : (t s : Text) → (push_all (record { text = t; cut = true }) s).cut ≡ true
unfolding push_all
push_all-cut t [] = refl
push_all-cut t (x ∷ s) = ground (arith, push_all-cut (t ++ (x ∷ [])) s, push_all-cut t s)

pub push_all-long :
    (t s : Text) (cut : Bool)
    → buf_size ≤ length t + length s
    → length t < buf_size
    → (push_all (record { text = t; cut = cut }) s).cut ≡ true
unfolding push_all
push_all-long t [] cut h small = absurd (omega arith)
push_all-long t (x ∷ s) cut h small = elim (Bool-cases (ltb (length t) (buf_size - 1))) [
  | inl fits ↦
      ap (λ l. (push_all l s).cut) (pushed t x cut fits)
      ∙ push_all-long (t ++ (x ∷ [])) s cut (omega (arith, length-append t (x ∷ [])))
          (ground (arith, length-append t (x ∷ [])))
  | inr full ↦ ap (λ l. (push_all l s).cut) (push_cut t x cut full) ∙ push_all-cut t s
]

pub c_string-chars : (s : Text) → AllChars s → c_string s ≡ s
unfolding c_string
c_string-chars [] h = refl
c_string-chars (x ∷ s) h = rw (h.0.2) (ap (λ l. x ∷ l) (c_string-chars s h.1))
