-- ===== src/Ws/Dropping.antt =====
-- backend/ws/hub.go: removing clients, and the whole of a broadcast.
use grab_seat.Base.{
  ℕ, Bool, true, false, not, ◌&&◌, ◌||◌, ◌≡◌, refl, ◌∙◌, subst, inl, inr, List, [], ◌∷◌, some, ◌==◌,
  ==_iff, ==_refl, Bool-cases, arith, if◌then◌else◌,
}
use grab_seat.Base.Text.{Str}
use grab_seat.Ws.{Client, Hub, mem, delete, close, remove, has_room, push, remove_all, broadcast}
use grab_seat.Ws.Sending.{Distinct, mem-delete, fan_out_lem}

delete-Distinct : (k : ℕ) (ks : List ℕ) → Distinct ks → Distinct (delete k ks)
unfolding delete
delete-Distinct k [] d = tt
delete-Distinct k (c ∷ ks) (once, d) = elim (Bool-cases (c == k)) [
  | inl same ↦ rw same (delete-Distinct k ks d)
  | inr other ↦ rw other (mem-delete c k ks ∙ (rw (once) refl), delete-Distinct k ks d)
]

pub remove-Distinct : (k : ℕ) (h : Hub) → Distinct h.clients → Distinct (remove k h).clients
unfolding remove
remove-Distinct k h d = elim (Bool-cases (mem k h.clients)) [
  | inl there ↦ rw there (delete-Distinct k h.clients d)
  | inr absent ↦ rw absent d
]

pub mem-remove :
    (j k : ℕ) (h : Hub) → mem j (remove k h).clients ≡ (mem j h.clients && not (k == j))
unfolding remove
mem-remove j k h = elim (Bool-cases (mem k h.clients)) [
  | inl there ↦ rw there (mem-delete j k h.clients)
  | inr absent ↦ elim (Bool-cases (k == j)) [
    | inl same ↦
        let here : mem j h.clients ≡ false =
          subst (λ z. mem z h.clients ≡ false) ((==_iff k j).0 same) absent in
        rw (absent, same, here) refl
    | inr other ↦ rw (absent, other) (ground arith)
  ]
]

-- A client that is removed has its channel closed.
pub conns-remove :
    (j k : ℕ) (h : Hub)
    → (remove k h).conns j ≡ (if (k == j) && mem j h.clients then close (h.conns j) else h.conns j)
unfolding remove
conns-remove j k h = elim (Bool-cases (k == j)) [
  | inl same ↦
      subst
        (λ z.
          (remove k h).conns z
          ≡ (if (k == z) && mem z h.clients then close (h.conns z) else h.conns z))
        ((==_iff k j).0 same)
        (elim (Bool-cases (mem k h.clients)) [
          | inl there ↦ rw (==_refl k, there, ==_refl k) refl
          | inr absent ↦ rw (==_refl k, absent) refl
        ])
  | inr other ↦ elim (Bool-cases (mem k h.clients)) [
    | inl there ↦ rw (there, other) refl
    | inr absent ↦ rw (absent, other) refl
  ]
]

pub next-remove : (k : ℕ) (h : Hub) → (remove k h).next ≡ h.next
unfolding remove
next-remove k h = elim (Bool-cases (mem k h.clients)) [
  | inl there ↦ rw there refl
  | inr absent ↦ rw absent refl
]

mem-remove_all :
    (ks : List ℕ) (j : ℕ) (h : Hub)
    → mem j (remove_all ks h).clients ≡ (mem j h.clients && not (mem j ks))
unfolding remove_all mem
mem-remove_all [] j h = ground arith
mem-remove_all (k ∷ ks) j h = ground (arith, mem-remove_all ks j (remove k h), mem-remove j k h)

close_once :
    (e m a : Bool) (c : Client)
    → (if m && (a && not e)
        then close (if e && a then close c else c)
        else if e && a
        then close c
        else c)
      ≡ (if (e || m) && a then close c else c)
close_once true true true c = refl
close_once true true false c = refl
close_once true false true c = refl
close_once true false false c = refl
close_once false true true c = refl
close_once false true false c = refl
close_once false false a c = refl

-- Closing twice is closing once.
conns-remove_all :
    (ks : List ℕ) (j : ℕ) (h : Hub)
    → (remove_all ks h).conns j
      ≡ (if mem j ks && mem j h.clients then close (h.conns j) else h.conns j)
unfolding remove_all mem
conns-remove_all [] j h = refl
conns-remove_all (k ∷ ks) j h =
    conns-remove_all ks j (remove k h)
    ∙ (rw (mem-remove j k h, conns-remove j k h)
        (close_once (k == j) (mem j ks) (mem j h.clients) (h.conns j)))

remove_all-Distinct :
    (ks : List ℕ) (h : Hub) → Distinct h.clients → Distinct (remove_all ks h).clients
unfolding remove_all
remove_all-Distinct [] h d = d
remove_all-Distinct (k ∷ ks) h d = remove_all-Distinct ks (remove k h) (remove-Distinct k h d)

next-remove_all : (ks : List ℕ) (h : Hub) → (remove_all ks h).next ≡ h.next
unfolding remove_all
next-remove_all [] h = refl
next-remove_all (k ∷ ks) h = next-remove_all ks (remove k h) ∙ next-remove k h

-- A broadcast that ran: every registered client with room stays and has the message behind what was
-- in its channel; every other registered client is dropped with its channel closed.
pub record Delivered (msg : Str) (h h' : Hub) : Type 0 where
  pub clients : (j : ℕ) → mem j h'.clients ≡ (mem j h.clients && has_room (h.conns j))
  pub conns :
      (j : ℕ)
      → h'.conns j ≡ (
          if mem j h.clients
          then if has_room (h.conns j) then push msg (h.conns j) else close (h.conns j)
          else h.conns j)
  pub next : h'.next ≡ h.next
  pub distinct : Distinct h'.clients

push_or_close :
    (m r : Bool) (pushed c : Client)
    → (if (m && not r) && m
        then close (if m then if r then pushed else c else c)
        else if m
        then if r then pushed else c
        else c)
      ≡ (if m then if r then pushed else close c else c)
push_or_close true true pushed c = refl
push_or_close true false pushed c = refl
push_or_close false r pushed c = refl

-- A broadcast on a hub with distinct clients and open channels does not panic, and delivers: every
-- registered client with room stays and has the message, every other is dropped and closed.
pub broadcast_lem :
    (msg : Str) (h : Hub)
    → Distinct h.clients
    → ((j : ℕ) → mem j h.clients ≡ true → (h.conns j).closed ≡ false)
    → (h' : Hub) × (broadcast msg h ≡ some h') × Delivered msg h h'
unfolding broadcast
broadcast_lem msg h d all_open =
    let sent = fan_out_lem msg h.clients h.conns d all_open in
    let mid : Hub = record h { conns = sent.after } in
    (
      remove_all sent.stuck mid,
      rw sent.runs refl,
      record {
        clients = λ j. mem-remove_all sent.stuck j mid ∙ (rw (sent.dropped j) (ground arith));
        conns = λ j.
            conns-remove_all sent.stuck j mid
            ∙ (rw (sent.dropped j, sent.conns j)
                (push_or_close (mem j h.clients) (has_room (h.conns j)) (push msg (h.conns j))
                  (h.conns j)));
        next = next-remove_all sent.stuck mid;
        distinct = remove_all-Distinct sent.stuck mid d;
      },
    )
