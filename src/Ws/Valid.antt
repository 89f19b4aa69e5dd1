-- ===== src/Ws/Valid.antt =====
-- backend/ws: the invariant of a hub. The channel of a client that was made is open exactly while the client is
-- registered, and no channel holds more than its buffer.
use grab_seat.Base.{
  ℕ, ◌<◌, ◌≤◌, Bool, true, false, not, ◌&&◌, ◌≡◌, ◌↔◌, refl, subst, inl, inr, List, [], ◌∷◌, Option,
  none, some, ◌==◌, ==_iff, length, length-append, Bool-cases, ◌⊎◌, arith, if◌then◌else◌,
}
use grab_seat.Base.Text.{Str}
use grab_seat.Ws.{
  Client, Hub, mem, update, add, close, remove, has_room, push, offer, broadcast, send_snapshot,
  pumped, pump, pinged, ping_client, ticked, send_buffer_size, Happening, connected, disconnected,
  broadcasted, snapshot_sent, pumped_one, happen, happen_all, new_hub, then_happen,
}
use grab_seat.Ws.Pumping.{pumped_keeps}
use grab_seat.Ws.Sending.{Distinct, offer_room, offer_full}
use grab_seat.Ws.Dropping.{remove-Distinct, mem-remove, conns-remove, next-remove, broadcast_lem}

-- The client `j` of the first `n`, registered or not.
abbrev pub Fit : ℕ → ℕ → Bool → Client → Type 0
Fit n j m c =
    (m ≡ true → (c.closed ≡ false) × (j < n))
    × (m ≡ false → c.closed ≡ true)
    × (length c.send ≤ send_buffer_size)

pub record Valid (h : Hub) : Type 0 where
  pub distinct : Distinct h.clients
  pub fit : (j : ℕ) → Fit h.next j (mem j h.clients) (h.conns j)

removed-Fit :
    (n j : ℕ) (e m : Bool) (c : Client)
    → Fit n j m c
    → Fit n j (m && not e) (if e && m then close c else c)
removed-Fit n j true true c (a, b, l) = (λ x. cc, λ y. refl, l)
removed-Fit n j true false c (a, b, l) = (λ x. cc, b, l)
removed-Fit n j false true c (a, b, l) = (a, b, l)
removed-Fit n j false false c (a, b, l) = (a, b, l)

remove-Valid : (k : ℕ) (h : Hub) → Valid h → Valid (remove k h)
remove-Valid k h v = record {
  distinct = remove-Distinct k h v.distinct;
  fit = λ j.
      rw (next-remove k h, mem-remove j k h, conns-remove j k h)
        (removed-Fit h.next j (k == j) (mem j h.clients) (h.conns j) (v.fit j));
}

delivered-Fit :
    (n j : ℕ) (msg : Str) (m : Bool) (c : Client)
    → Fit n j m c
    → Fit n j (m && has_room c) (if m then if has_room c then push msg c else close c else c)
delivered-Fit n j msg false c f = f
delivered-Fit n j msg true c (a, b, l) = elim (Bool-cases (has_room c)) [
  | inl room ↦ rw room (a, λ x. cc, ground (arith, length-append c.send (msg ∷ []), room))
  | inr full ↦ rw full (λ x. cc, λ x. refl, l)
]

broadcast-Valid :
    (msg : Str) (h : Hub) → Valid h → (h' : Hub) × (broadcast msg h ≡ some h') × Valid h'
broadcast-Valid msg h v =
    let (h', runs, d) = broadcast_lem msg h v.distinct (λ j m. ((v.fit j).0 m).0) in
    (
      h',
      runs,
      record {
        distinct = d.distinct;
        fit = λ j.
            rw (d.next, d.clients j, d.conns j)
              (delivered-Fit h.next j msg (mem j h.clients) (h.conns j) (v.fit j));
      },
    )

unmade : (h : Hub) → Valid h → mem h.next h.clients ≡ false
unmade h v = elim (Bool-cases (mem h.next h.clients)) [
  | inl there ↦ absurd (omega (arith, ((v.fit h.next).0 there).1))
  | inr absent ↦ absent
]

pub add-Valid : (h : Hub) → Valid h → Valid (add h)
unfolding add mem
add-Valid h v = record {
  distinct = (unmade h v, v.distinct);
  fit = λ j. elim (Bool-cases (h.next == j)) [
    | inl new ↦ rw new (λ x. (refl, ground (arith, new)), λ x. cc, ground arith)
    | inr old ↦
        rw old
          (λ x. (((v.fit j).0 x).0, ground (arith, ((v.fit j).0 x).1)), (v.fit j).1, (v.fit j).2)
  ];
}

-- A change of one client that keeps its channel open or closed, and within its buffer.
update-Valid :
    (k : ℕ) (c : Client) (h : Hub)
    → c.closed ≡ (h.conns k).closed
    → length c.send ≤ send_buffer_size
    → Valid h
    → Valid (record h { conns = update k c h.conns })
update-Valid k c h same short v = record {
  distinct = v.distinct;
  fit = λ j. elim (Bool-cases (k == j)) [
    | inl here ↦
        let same_j : c.closed ≡ (h.conns j).closed =
          subst (λ z. c.closed ≡ (h.conns z).closed) ((==_iff k j).0 here) same in
        rw (here, same_j) ((v.fit j).0, (v.fit j).1, short)
    | inr other ↦ rw other (v.fit j)
  ];
}

pump-Valid : (k : ℕ) (ok : Bool) (h : Hub) → Valid h → Valid (pump k ok h)
unfolding pump
pump-Valid k ok h v =
    let (same, short) = pumped_keeps ok (h.conns k) (v.fit k).2 in
    update-Valid k (pumped ok (h.conns k)) h same short v

ping-Valid : (k : ℕ) (ok : Bool) (h : Hub) → Valid h → Valid (ping_client k ok h)
unfolding ping_client pinged
ping-Valid k true h v = update-Valid k (h.conns k) h refl (v.fit k).2 v
ping-Valid k false h v =
    update-Valid k (record (h.conns k) { pumping = false }) h refl (v.fit k).2 v

offer_closed : (msg : Str) (c : Client) → c.closed ≡ true → offer msg c ≡ none
unfolding offer
offer_closed msg c is_closed = rw (offer, is_closed) refl

snapshot-Valid :
    (k : ℕ) (msg : Str) (h : Hub)
    → Valid h
    → mem k h.clients ≡ true
    → (h' : Hub) × (send_snapshot k msg h ≡ some h') × Valid h'
unfolding send_snapshot
snapshot-Valid k msg h v there =
    let is_open = ((v.fit k).0 there).0 in
    elim (Bool-cases (has_room (h.conns k))) [
      | inl room ↦ (
        record h { conns = update k (push msg (h.conns k)) h.conns },
        rw (offer_room msg (h.conns k) is_open room) refl,
        update-Valid k (push msg (h.conns k)) h refl
            (ground (arith, length-append (h.conns k).send (msg ∷ []), room)) v,
      )
      | inr full ↦ (
        record h { conns = update k (h.conns k) h.conns },
        rw (offer_full msg (h.conns k) is_open full) refl,
        update-Valid k (h.conns k) h refl (v.fit k).2 v,
      )
    ]

-- A snapshot is for a client that is registered.
abbrev pub ToRegistered : Happening → Hub → Type 0
ToRegistered (snapshot_sent k msg) h = mem k h.clients ≡ true
ToRegistered _ h = Unit

registered_or_panics : (e : Happening) (h : Hub) → Valid h → ToRegistered e h ⊎ (happen e h ≡ none)
unfolding happen send_snapshot
registered_or_panics connected h v = inl tt
registered_or_panics (disconnected k) h v = inl tt
registered_or_panics (broadcasted msg) h v = inl tt
registered_or_panics (pumped_one k ok) h v = inl tt
registered_or_panics (ticked k ok) h v = inl tt
registered_or_panics (snapshot_sent k msg) h v = elim (Bool-cases (mem k h.clients)) [
  | inl there ↦ inl there
  | inr absent ↦ inr (rw (offer_closed msg (h.conns k) ((v.fit k).1 absent)) refl)
]

-- Anything that happens to a valid hub, but a snapshot for a client that is gone, runs without a
-- panic and leaves a valid hub.
pub happen-Valid :
    (e : Happening) (h : Hub)
    → Valid h
    → ToRegistered e h
    → (h' : Hub) × (happen e h ≡ some h') × Valid h'
unfolding happen
happen-Valid connected h v to = (add h, refl, add-Valid h v)
happen-Valid (disconnected k) h v to = (remove k h, refl, remove-Valid k h v)
happen-Valid (broadcasted msg) h v to = broadcast-Valid msg h v
happen-Valid (snapshot_sent k msg) h v to = snapshot-Valid k msg h v to
happen-Valid (pumped_one k ok) h v to = (pump k ok h, refl, pump-Valid k ok h v)
happen-Valid (ticked k ok) h v to = (ping_client k ok h, refl, ping-Valid k ok h v)

-- The snapshot that Serve sends panics exactly when its client is registered no more.
pub snapshot_panics_iff :
    (k : ℕ) (msg : Str) (h : Hub)
    → Valid h
    → (send_snapshot k msg h ≡ none) ↔ (mem k h.clients ≡ false)
unfolding send_snapshot
snapshot_panics_iff k msg h v = (
  λ panics. elim (Bool-cases (mem k h.clients)) [
    | inl there ↦ let (h', runs, _) = snapshot-Valid k msg h v there in absurd cc
    | inr absent ↦ absent
  ],
  λ absent. rw (offer_closed msg (h.conns k) ((v.fit k).1 absent)) refl,
)

-- A hub that was new, and whatever happened to it since without a panic, is valid.
pub ran-Valid : (e : Happening) (h h' : Hub) → Valid h → happen e h ≡ some h' → Valid h'
unfolding happen
ran-Valid e h h' v runs = elim (registered_or_panics e h v) [
  | inl to ↦
      let (h2, runs2, v2) = happen-Valid e h v to in let same : h2 ≡ h' = cc in subst Valid same v2
  | inr panics ↦ absurd cc
]

pub ran_both :
    (o : Option Hub) (f : Hub → Option Hub) (h' : Hub)
    → then_happen o f ≡ some h'
    → (mid : Hub) × (o ≡ some mid) × (f mid ≡ some h')
ran_both none f h' runs = absurd cc
ran_both (some mid) f h' runs = (mid, refl, runs)

pub happen_all-Valid :
    (es : List Happening) (h h' : Hub) → Valid h → happen_all es h ≡ some h' → Valid h'
unfolding happen_all
happen_all-Valid [] h h' v runs = let same : h ≡ h' = cc in subst Valid same v
happen_all-Valid (e ∷ es) h h' v runs =
    let (mid, first, rest) = ran_both (happen e h) (happen_all es) h' runs in
    happen_all-Valid es mid h' (ran-Valid e h mid v first) rest

pub new_hub-Valid : Valid new_hub
unfolding mem
new_hub-Valid = record { distinct = tt; fit = λ j. (λ x. absurd cc, λ x. refl, omega arith) }
