-- ===== src/Ws/Sending.antt =====
-- backend/ws/hub.go: the first loop of Broadcast.
use grab_seat.Base.{
  ℕ, true, false, not, ◌&&◌, ◌≡◌, refl, ◌∙◌, subst, inl, inr, List, [], ◌∷◌, some, ◌==◌, ==_iff,
  ==_refl, Bool-cases, arith, if◌then◌else◌,
}
use grab_seat.Base.Text.{Str}
use grab_seat.Ws.{Client, mem, delete, update, has_room, push, offer, fan_out}

-- No client occurs twice.
abbrev pub Distinct : List ℕ → Type 0
Distinct [] = Unit
Distinct (k ∷ ks) = (mem k ks ≡ false) × Distinct ks

-- What the first loop of Broadcast does to a client.
abbrev pub accept : Str → Client → Client
accept msg c = if has_room c then push msg c else c

pub mem-delete : (j k : ℕ) (ks : List ℕ) → mem j (delete k ks) ≡ (mem j ks && not (k == j))
unfolding mem delete
mem-delete j k [] = refl
mem-delete j k (c ∷ ks) = ground (arith, mem-delete j k ks)

-- The first loop gives the message to every client with room, once, and finds the others stuck.
pub record FannedOut (msg : Str) (ks : List ℕ) (before : ℕ → Client) : Type 0 where
  pub after : ℕ → Client
  pub stuck : List ℕ
  pub runs : fan_out msg ks before ≡ some (after, stuck)
  pub conns : (j : ℕ) → after j ≡ (if mem j ks then accept msg (before j) else before j)
  pub dropped : (j : ℕ) → mem j stuck ≡ (mem j ks && not (has_room (before j)))

conn_sent :
    (msg : Str) (k j : ℕ) (ks : List ℕ) (conns : ℕ → Client)
    → mem k ks ≡ false
    → has_room (conns k) ≡ true
    → (if mem j ks
        then accept msg (update k (push msg (conns k)) conns j)
        else update k (push msg (conns k)) conns j)
      ≡ (if mem j (k ∷ ks) then accept msg (conns j) else conns j)
unfolding mem
conn_sent msg k j ks conns once room = elim (Bool-cases (k == j)) [
  | inl same ↦
      subst
        (λ z.
          (if mem z ks
            then accept msg (update k (push msg (conns k)) conns z)
            else update k (push msg (conns k)) conns z)
          ≡ (if mem z (k ∷ ks) then accept msg (conns z) else conns z))
        ((==_iff k j).0 same) (rw (==_refl k, once, room) refl)
  | inr other ↦ rw other refl
]

conn_stuck :
    (msg : Str) (k j : ℕ) (ks : List ℕ) (conns : ℕ → Client)
    → mem k ks ≡ false
    → has_room (conns k) ≡ false
    → (if mem j ks then accept msg (conns j) else conns j)
      ≡ (if mem j (k ∷ ks) then accept msg (conns j) else conns j)
unfolding mem
conn_stuck msg k j ks conns once full = elim (Bool-cases (k == j)) [
  | inl same ↦
      subst
        (λ z.
          (if mem z ks then accept msg (conns z) else conns z)
          ≡ (if mem z (k ∷ ks) then accept msg (conns z) else conns z))
        ((==_iff k j).0 same) (rw (==_refl k, once, full) refl)
  | inr other ↦ rw other refl
]

drop_sent :
    (msg : Str) (k j : ℕ) (ks : List ℕ) (conns : ℕ → Client)
    → mem k ks ≡ false
    → has_room (conns k) ≡ true
    → (mem j ks && not (has_room (update k (push msg (conns k)) conns j)))
      ≡ (mem j (k ∷ ks) && not (has_room (conns j)))
unfolding mem
drop_sent msg k j ks conns once room = elim (Bool-cases (k == j)) [
  | inl same ↦
      subst
        (λ z.
          (mem z ks && not (has_room (update k (push msg (conns k)) conns z)))
          ≡ (mem z (k ∷ ks) && not (has_room (conns z))))
        ((==_iff k j).0 same) (rw (==_refl k, once, room) refl)
  | inr other ↦ rw other refl
]

drop_stuck_lem :
    (k j : ℕ) (ks stuck : List ℕ) (conns : ℕ → Client)
    → has_room (conns k) ≡ false
    → mem j stuck ≡ (mem j ks && not (has_room (conns j)))
    → mem j (k ∷ stuck) ≡ (mem j (k ∷ ks) && not (has_room (conns j)))
unfolding mem
drop_stuck_lem k j ks stuck conns full h = elim (Bool-cases (k == j)) [
  | inl same ↦
      let here : has_room (conns j) ≡ false =
        subst (λ z. has_room (conns z) ≡ false) ((==_iff k j).0 same) full in
      rw (same, here) refl
  | inr other ↦ rw other h
]

still_open :
    (msg : Str) (k j : ℕ) (conns : ℕ → Client)
    → (conns k).closed ≡ false
    → (conns j).closed ≡ false
    → (update k (push msg (conns k)) conns j).closed ≡ false
still_open msg k j conns a b = elim (Bool-cases (k == j)) [
  | inl same ↦ rw same a
  | inr other ↦ rw other b
]

first_mem : (k : ℕ) (ks : List ℕ) → mem k (k ∷ ks) ≡ true
unfolding mem
first_mem k ks = rw (==_refl k) refl

later_mem : (j k : ℕ) (ks : List ℕ) → mem j ks ≡ true → mem j (k ∷ ks) ≡ true
unfolding mem
later_mem j k ks h = ground arith

pub offer_room :
    (msg : Str) (c : Client)
    → c.closed ≡ false
    → has_room c ≡ true
    → offer msg c ≡ some (push msg c, true)
unfolding offer
offer_room msg c is_open room = rw (is_open, offer, is_open, room) refl

pub offer_full :
    (msg : Str) (c : Client) → c.closed ≡ false → has_room c ≡ false → offer msg c ≡ some (c, false)
unfolding offer
offer_full msg c is_open full = rw (is_open, offer, is_open, full) refl

fan_out_sent :
    (msg : Str) (k : ℕ) (ks : List ℕ) (conns : ℕ → Client)
    → (conns k).closed ≡ false
    → has_room (conns k) ≡ true
    → fan_out msg (k ∷ ks) conns ≡ fan_out msg ks (update k (push msg (conns k)) conns)
unfolding fan_out
fan_out_sent msg k ks conns is_open room = rw (fan_out, offer_room msg (conns k) is_open room) refl

pub fan_out_lem :
    (msg : Str) (ks : List ℕ) (conns : ℕ → Client)
    → Distinct ks
    → ((j : ℕ) → mem j ks ≡ true → (conns j).closed ≡ false)
    → FannedOut msg ks conns
unfolding fan_out mem
fan_out_lem msg [] conns d all_open = record {
  after = conns;
  stuck = [];
  runs = refl;
  conns = λ j. refl;
  dropped = λ j. refl;
}
fan_out_lem msg (k ∷ ks) conns (once, d) all_open =
    let is_open : (conns k).closed ≡ false = all_open k (first_mem k ks) in
    let rest_open : (j : ℕ) → mem j ks ≡ true → (conns j).closed ≡ false =
      λ j h. all_open j (later_mem j k ks h) in
    elim (Bool-cases (has_room (conns k))) [
      | inl room ↦
          let sent : ℕ → Client = update k (push msg (conns k)) conns in
          let ih =
            fan_out_lem msg ks sent d (λ j h. still_open msg k j conns is_open (rest_open j h)) in
          record {
            after = ih.after;
            stuck = ih.stuck;
            runs = fan_out_sent msg k ks conns is_open room ∙ ih.runs;
            conns = λ j. ih.conns j ∙ conn_sent msg k j ks conns once room;
            dropped = λ j. ih.dropped j ∙ drop_sent msg k j ks conns once room;
          }
      | inr full ↦
          let ih = fan_out_lem msg ks conns d rest_open in
          record {
            after = ih.after;
            stuck = k ∷ ih.stuck;
            runs = rw (fan_out, offer_full msg (conns k) is_open full, ih.runs) refl;
            conns = λ j. ih.conns j ∙ conn_stuck msg k j ks conns once full;
            dropped = λ j. drop_stuck_lem k j ks ih.stuck conns full (ih.dropped j);
          }
    ]
