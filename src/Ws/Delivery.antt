-- ===== src/Ws/Delivery.antt =====
-- backend/ws: what has reached a client that is still connected.
use grab_seat.Base.{
  ℕ, ◌<◌, Bool, true, false, not, ◌&&◌, ◌≡◌, refl, sym, ◌∙◌, ap, subst, inl, inr, List, [], ◌∷◌,
  ◌++◌, Option, none, some, ◌==◌, ==_iff, ==_refl, Bool-cases, All, append_nil, append_assoc, arith,
  if◌then◌else◌,
}
use grab_seat.Base.Text.{Str}
use grab_seat.Ws.{
  Client, Hub, mem, update, add, close, remove, has_room, push, offer, put_back, send_snapshot,
  pumped, pump, ping_client, ticked, Happening, connected, disconnected, broadcasted, snapshot_sent,
  pumped_one, happen, happen_all,
}
use grab_seat.Ws.Dropping.{mem-remove, conns-remove, next-remove, Delivered, broadcast_lem}
use grab_seat.Ws.Pumping.{stream, pumped_if, stream-pinged}
use grab_seat.Ws.Valid.{Valid, ran-Valid, ran_both}

-- The broadcasts of a history.
pub broadcasts : List Happening → List Str
broadcasts [] = []
broadcasts (broadcasted msg ∷ es) = msg ∷ broadcasts es
broadcasts (connected ∷ es) = broadcasts es
broadcasts (disconnected k ∷ es) = broadcasts es
broadcasts (snapshot_sent k msg ∷ es) = broadcasts es
broadcasts (pumped_one k ok ∷ es) = broadcasts es
broadcasts (ticked k ok ∷ es) = broadcasts es

-- No snapshot is for the client.
abbrev pub NotSnapshot : ℕ → Happening → Type 0
NotSnapshot k (snapshot_sent j msg) = (j == k) ≡ false
NotSnapshot k _ = Unit

-- The client is registered, and no write to its connection has failed.
abbrev pub Alive : ℕ → Hub → Type 0
Alive k h = (mem k h.clients ≡ true) × ((h.conns k).pumping ≡ true)

-- From `h` to `h'`: if the client is alive after, it was before, and its stream grew by `msgs`.
abbrev Heard : ℕ → List Str → Hub → Hub → Type 0
Heard k msgs h h' =
    (k < h'.next) × (Alive k h' → Alive k h × (stream (h'.conns k) ≡ stream (h.conns k) ++ msgs))

add-Heard : (k : ℕ) (h : Hub) → k < h.next → Heard k [] h (add h)
unfolding add mem
add-Heard k h made =
    let other : (h.next == k) ≡ false = ground arith in
    rw other (omega arith, λ alive. (alive, append_nil (stream (h.conns k))))

heard_removed :
    (e m : Bool) (c : Client)
    → ((m && not e) ≡ true) × ((if e && m then close c else c).pumping ≡ true)
    → ((m ≡ true) × (c.pumping ≡ true)) × (stream (if e && m then close c else c) ≡ stream c ++ [])
heard_removed true true c (there, runs) = absurd cc
heard_removed true false c (there, runs) = absurd cc
heard_removed false false c (there, runs) = absurd cc
heard_removed false true c (there, runs) = ((refl, runs), append_nil (stream c))

remove-Heard : (j k : ℕ) (h : Hub) → k < h.next → Heard k [] h (remove j h)
remove-Heard j k h made =
    rw (next-remove j h, mem-remove k j h, conns-remove k j h)
      (made, heard_removed (j == k) (mem k h.clients) (h.conns k))

heard_broadcast :
    (msg : Str) (m r : Bool) (c : Client)
    → ((m && r) ≡ true) × ((if m then if r then push msg c else close c else c).pumping ≡ true)
    → ((m ≡ true) × (c.pumping ≡ true))
      × (stream (if m then if r then push msg c else close c else c) ≡ stream c ++ (msg ∷ []))
heard_broadcast msg true true c (there, runs) =
    ((refl, runs), sym (append_assoc c.written c.send (msg ∷ [])))
heard_broadcast msg true false c (there, runs) = absurd cc
heard_broadcast msg false r c (there, runs) = absurd cc

broadcast-Heard :
    (msg : Str) (k : ℕ) (h h' : Hub) → k < h.next → Delivered msg h h' → Heard k (msg ∷ []) h h'
broadcast-Heard msg k h h' made d =
    rw (d.next, d.clients k, d.conns k)
      (made, heard_broadcast msg (mem k h.clients) (has_room (h.conns k)) (h.conns k))

pump-Heard : (j k : ℕ) (ok : Bool) (h : Hub) → k < h.next → Heard k [] h (pump j ok h)
unfolding pump pumped
pump-Heard j k ok h made = elim (Bool-cases (j == k)) [
  | inl same ↦
      subst (λ z. Heard z [] h (pump j ok h)) ((==_iff j k).0 same)
        (
          subst (λ z. z < h.next) (sym ((==_iff j k).0 same)) made,
          rw (==_refl j) (λ (there, runs).
              let (ran, kept) = pumped_if ok (h.conns j).pumping (h.conns j) refl runs in
              ((there, ran), kept ∙ append_nil (stream (h.conns j)))),
        )
  | inr other ↦ rw other (made, λ alive. (alive, append_nil (stream (h.conns k))))
]

ping-Heard : (j k : ℕ) (ok : Bool) (h : Hub) → k < h.next → Heard k [] h (ping_client j ok h)
unfolding ping_client
ping-Heard j k ok h made = elim (Bool-cases (j == k)) [
  | inl same ↦
      subst (λ z. Heard z [] h (ping_client j ok h)) ((==_iff j k).0 same)
        (
          subst (λ z. z < h.next) (sym ((==_iff j k).0 same)) made,
          rw (==_refl j) (λ (there, runs).
              let (ran, kept) = stream-pinged ok (h.conns j) runs in
              ((there, ran), kept ∙ append_nil (stream (h.conns j)))),
        )
  | inr other ↦ rw other (made, λ alive. (alive, append_nil (stream (h.conns k))))
]

put_back-Heard :
    (j k : ℕ) (h h' : Hub) (o : Option (Client × Bool))
    → (j == k) ≡ false
    → k < h.next
    → put_back j h o ≡ some h'
    → Heard k [] h h'
put_back-Heard j k h h' none other made runs = absurd cc
put_back-Heard j k h h' (some (c, taken)) other made runs =
    let same : record h { conns = update j c h.conns } ≡ h' = cc in
    subst (Heard k [] h) same (rw other (made, λ alive. (alive, append_nil (stream (h.conns k)))))

msgs : Happening → List Str
msgs (broadcasted msg) = msg ∷ []
msgs _ = []

becomes : (k : ℕ) (l : List Str) (h a b : Hub) → some a ≡ some b → Heard k l h a → Heard k l h b
becomes k l h a b e heard = let same : a ≡ b = cc in subst (Heard k l h) same heard

happen-Heard :
    (e : Happening) (k : ℕ) (h h' : Hub)
    → Valid h
    → NotSnapshot k e
    → k < h.next
    → happen e h ≡ some h'
    → Heard k (msgs e) h h'
unfolding happen msgs send_snapshot
happen-Heard connected k h h' v ns made runs = becomes k [] h (add h) h' runs (add-Heard k h made)
happen-Heard (disconnected j) k h h' v ns made runs =
    becomes k [] h (remove j h) h' runs (remove-Heard j k h made)
happen-Heard (broadcasted msg) k h h' v ns made runs =
    let (h2, ran, d) = broadcast_lem msg h v.distinct (λ j m. ((v.fit j).0 m).0) in
    becomes k (msg ∷ []) h h2 h' (sym ran ∙ runs) (broadcast-Heard msg k h h2 made d)
happen-Heard (snapshot_sent j msg) k h h' v ns made runs =
    put_back-Heard j k h h' (offer msg (h.conns j)) ns made runs
happen-Heard (pumped_one j ok) k h h' v ns made runs =
    becomes k [] h (pump j ok h) h' runs (pump-Heard j k ok h made)
happen-Heard (ticked j ok) k h h' v ns made runs =
    becomes k [] h (ping_client j ok h) h' runs (ping-Heard j k ok h made)

broadcasts-cons :
    (e : Happening) (es : List Happening) → broadcasts (e ∷ es) ≡ msgs e ++ broadcasts es
unfolding broadcasts msgs
broadcasts-cons connected es = refl
broadcasts-cons (disconnected k) es = refl
broadcasts-cons (broadcasted msg) es = refl
broadcasts-cons (snapshot_sent k msg) es = refl
broadcasts-cons (pumped_one k ok) es = refl
broadcasts-cons (ticked k ok) es = refl

history-Heard :
    (es : List Happening) (k : ℕ) (h h' : Hub)
    → Valid h
    → All (NotSnapshot k) es
    → k < h.next
    → happen_all es h ≡ some h'
    → Heard k (broadcasts es) h h'
unfolding happen_all broadcasts
history-Heard [] k h h' v ns made runs =
    becomes k [] h h h' runs (made, λ alive. (alive, append_nil (stream (h.conns k))))
history-Heard (e ∷ es) k h h' v (n, ns) made runs =
    let (mid, first, rest) = ran_both (happen e h) (happen_all es) h' runs in
    let (made_mid, before) = happen-Heard e k h mid v n made first in
    let (made_end, after) =
      history-Heard es k mid h' (ran-Valid e h mid v first) ns made_mid rest in
    (
      made_end,
      λ alive.
          let (alive_mid, grew) = after alive in
          let (alive_start, grew_first) = before alive_mid in
          (
            alive_start,
            grew
                ∙ (ap (λ z. z ++ broadcasts es) grew_first
                    ∙ (append_assoc (stream (h.conns k)) (msgs e) (broadcasts es)
                        ∙ ap (λ z. stream (h.conns k) ++ z) (sym (broadcasts-cons e es)))),
          ),
    )

-- Take a client of a valid hub, and what happens from then on, with no snapshot for it. If it is
-- registered in the end and no write to it has failed, then what it was sent and what waits in its
-- channel is what it was before, followed by every broadcast since, in order.
pub delivers_in_order :
    (es : List Happening) (k : ℕ) (h h' : Hub)
    → Valid h
    → mem k h.clients ≡ true
    → All (NotSnapshot k) es
    → happen_all es h ≡ some h'
    → Alive k h'
    → stream (h'.conns k) ≡ stream (h.conns k) ++ broadcasts es
delivers_in_order es k h h' v there ns runs alive =
    ((history-Heard es k h h' v ns ((v.fit k).0 there).1 runs).1 alive).1
