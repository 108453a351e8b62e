-- ===== src/Mqtt/Poll/Messages.antt =====
-- The messages of a poll, apart from the code that sends them.
use regtable.Prelude.{ℕ, zero, suc, ◌+◌, ◌≤◌, ◌≡◌, ◌∙◌, ◌⊎◌, inl, inr, refl, sym, ap, arith}
use regtable.Prelude.{some, get_elem?, if_cases, Bool-cases}
use std.Path.{subst}
use regtable.Prelude.{true, false, ◌&&◌, ◌==◌, if◌then◌else◌, ◌++◌, take, List, [], ◌∷◌, get_or}
use regtable.Core.Types.{Text, RegEntry}
use regtable.Core.Memory.{load_raw}
use regtable.Core.Text.{Libc, reg_raw_str}
use regtable.Mqtt.Poll.Marks.{is_marked}
use regtable.Mqtt.Poll.{Publish}

-- `<prefix>/<name>`, cut off at the 63 bytes that a topic has room for
abbrev pub topic_of : Text → RegEntry → Text
topic_of prefix e = take 63 (prefix ++ (b'/' ∷ e.name))

-- The topic and the payload for an entry with this value.
abbrev pub message_of : Libc → Text → RegEntry → ℕ → Text × Text
message_of c prefix e raw = (topic_of prefix e, (reg_raw_str c e raw 32).1)

-- The messages for the entries, from index `i` on, but for those that are marked in sync with the
-- value that they have.
abbrev pub stale_messages :
    Libc → Text → List ℕ → List ℕ → (ℕ → ℕ) → List RegEntry → ℕ → List (Text × Text)
stale_messages c prefix synced shadow mem [] i = []
stale_messages c prefix synced shadow mem (e ∷ es) i =
    let rest = stale_messages c prefix synced shadow mem es (i + 1) in
    if is_marked synced i && load_raw e mem == get_or shadow i 0
    then rest
    else message_of c prefix e (load_raw e mem) ∷ rest

-- A message for each of the entries.
abbrev pub all_messages : Libc → Text → (ℕ → ℕ) → List RegEntry → List (Text × Text)
all_messages c prefix mem [] = []
all_messages c prefix mem (e ∷ es) =
    message_of c prefix e (load_raw e mem) ∷ all_messages c prefix mem es

-- Each of the messages is handed to `publish`, to be retained, in order.
abbrev pub deliver {ℓ} : {W : Type ℓ} → Publish W → List (Text × Text) → W → W
deliver publish [] w = w
deliver publish ((topic, payload) ∷ ms) w = deliver publish ms (publish topic payload true w).1

-- Only what is recorded from index `i` on counts.
pub stale_messages_congr :
    (c : Libc) (prefix : Text) (synced synced' shadow shadow' : List ℕ) (mem : ℕ → ℕ)
    (es : List RegEntry) (i : ℕ)
    → ((j : ℕ)
        → i ≤ j
        → (is_marked synced j ≡ is_marked synced' j) × (get_or shadow j 0 ≡ get_or shadow' j 0))
    → stale_messages c prefix synced shadow mem es i
      ≡ stale_messages c prefix synced' shadow' mem es i
stale_messages_congr c prefix synced synced' shadow shadow' mem [] i same = refl
stale_messages_congr c prefix synced synced' shadow shadow' mem (e ∷ es) i same =
    let rest =
      stale_messages_congr c prefix synced synced' shadow shadow' mem es (i + 1)
        (λ j h. same j (omega arith)) in
    let (marks, values) = same i (omega arith) in
    λ k.
      if marks k && load_raw e mem == values k
      then rest k
      else message_of c prefix e (load_raw e mem) ∷ rest k

pub all_stale :
    (c : Libc) (prefix : Text) (synced shadow : List ℕ) (mem : ℕ → ℕ) (es : List RegEntry) (i : ℕ)
    → ((j : ℕ) → i ≤ j → is_marked synced j ≡ false)
    → stale_messages c prefix synced shadow mem es i ≡ all_messages c prefix mem es
all_stale c prefix synced shadow mem [] i none_is = refl
all_stale c prefix synced shadow mem (e ∷ es) i none_is =
    let rest = all_stale c prefix synced shadow mem es (i + 1) (λ j h. none_is j (omega arith)) in
    rw (none_is i (omega arith)) (ap (λ ms. message_of c prefix e (load_raw e mem) ∷ ms) rest)

-- The message is one of these.
abbrev pub IsOneOf : Text × Text → List (Text × Text) → Type 0
IsOneOf m ms =
    (before : List (Text × Text)) × (after : List (Text × Text)) × (ms ≡ before ++ (m ∷ after))

one_more : (m x : Text × Text) (ms : List (Text × Text)) → IsOneOf m ms → IsOneOf m (x ∷ ms)
one_more m x ms (before, after, is) = (x ∷ before, after, ap (λ l. x ∷ l) is)

-- An entry is marked in sync with its value, or the message of its value is due.
pub stale_messages-at :
    (c : Libc) (prefix : Text) (synced shadow : List ℕ) (mem : ℕ → ℕ) (es : List RegEntry)
    (e : RegEntry) (i k : ℕ)
    → get_elem? es i ≡ some e
    → ((is_marked synced (k + i) ≡ true) × (get_or shadow (k + i) 0 ≡ load_raw e mem))
      ⊎ IsOneOf
          (message_of c prefix e (load_raw e mem))
          (stale_messages c prefix synced shadow mem es k)
stale_messages-at c prefix synced shadow mem [] e i k is = cc is
stale_messages-at c prefix synced shadow mem (x ∷ es) e zero k is =
    let at : x ≡ e = cc is in
    let here : k ≡ k + 0 = omega arith in
    let rest = stale_messages c prefix synced shadow mem es (k + 1) in
    let In : RegEntry → ℕ → Type 0 = λ y n.
      ((is_marked synced n ≡ true) × (get_or shadow n 0 ≡ load_raw y mem))
      ⊎ IsOneOf (message_of c prefix y (load_raw y mem))
          (stale_messages c prefix synced shadow mem (x ∷ es) k) in
    subst (λ y. In y (k + 0)) at
      (subst (In x) here
        (elim (Bool-cases (is_marked synced k && load_raw x mem == get_or shadow k 0)) [
          | inl current ↦ inl (ground arith, ground arith)
          | inr stale ↦ inr (rw stale ([], rest, refl))
        ]))
stale_messages-at c prefix synced shadow mem (x ∷ es) e (suc i) k is =
    let there : k + 1 + i ≡ k + suc i = omega arith in
    let m = message_of c prefix e (load_raw e mem) in
    let rest = stale_messages c prefix synced shadow mem es (k + 1) in
    elim (stale_messages-at c prefix synced shadow mem es e i (k + 1) is) [
      | inl (mark, value) ↦ inl (
        ap (is_marked synced) (sym there) ∙ mark,
        ap (λ n. get_or shadow n 0) (sym there) ∙ value,
      )
      | inr later ↦ inr (
          if_cases (IsOneOf m) (is_marked synced k && load_raw x mem == get_or shadow k 0) rest
            (message_of c prefix x (load_raw x mem) ∷ rest) (λ yes'. later)
            (λ no'. one_more m _ rest later))
    ]
