-- ===== src/Ws/Pumping.antt =====
-- backend/ws/client.go: the write pump of one client.
use grab_seat.Base.{
  ◌≤◌, Bool, true, false, ◌≡◌, refl, sym, ◌∙◌, ap, inl, inr, List, [], ◌∷◌, ◌++◌, length,
  append_assoc, Bool-cases, arith, if◌then◌else◌,
}
use grab_seat.Base.Text.{Str}
use grab_seat.Ws.{Client, write_next, pumped, pinged, send_buffer_size}

either_way : (P : Client → Type 0) (b : Bool) (c d : Client) → P c → P d → P (if b then c else d)
either_way P true c d p q = p
either_way P false c d p q = q

write_keeps :
    (ok : Bool) (s : List Str) (c : Client)
    → length s ≤ send_buffer_size
    → length c.send ≤ send_buffer_size
    → ((write_next ok s c).closed ≡ c.closed) × (length (write_next ok s c).send ≤ send_buffer_size)
unfolding write_next
write_keeps ok [] c h short = elim (Bool-cases c.closed) [
  | inl is_closed ↦ rw is_closed (refl, short)
  | inr is_open ↦ rw is_open (refl, short)
]
write_keeps true (m ∷ rest) c h short = (refl, omega (arith, h))
write_keeps false (m ∷ rest) c h short = (refl, omega (arith, h))

pub pumped_keeps :
    (ok : Bool) (c : Client)
    → length c.send ≤ send_buffer_size
    → ((pumped ok c).closed ≡ c.closed) × (length (pumped ok c).send ≤ send_buffer_size)
unfolding pumped
pumped_keeps ok c short =
    either_way (λ d. (d.closed ≡ c.closed) × (length d.send ≤ send_buffer_size)) c.pumping
      (write_next ok c.send c) c (write_keeps ok c.send c short short) (refl, short)

-- What a client was sent and has in its channel.
abbrev pub stream : Client → List Str
stream c = c.written ++ c.send

write_stream :
    (ok : Bool) (s : List Str) (c : Client)
    → s ≡ c.send
    → c.pumping ≡ true
    → (write_next ok s c).pumping ≡ true
    → stream (write_next ok s c) ≡ stream c
unfolding write_next
write_stream ok [] c same runs h = elim (Bool-cases c.closed) [
  | inl is_closed ↦ let ends : (write_next ok [] c).pumping ≡ false = rw is_closed refl in absurd cc
  | inr is_open ↦ rw is_open refl
]
write_stream true (m ∷ rest) c same runs h =
    append_assoc c.written (m ∷ []) rest ∙ ap (◌++◌ c.written) same
write_stream false (m ∷ rest) c same runs h = absurd cc

pub pumped_if :
    (ok b : Bool) (c : Client)
    → b ≡ c.pumping
    → (if b then write_next ok c.send c else c).pumping ≡ true
    → (c.pumping ≡ true) × (stream (if b then write_next ok c.send c else c) ≡ stream c)
pumped_if ok true c same h = (sym same, write_stream ok c.send c refl (sym same) h)
pumped_if ok false c same h = (h, refl)

pub stream-pinged :
    (ok : Bool) (c : Client)
    → (pinged ok c).pumping ≡ true
    → (c.pumping ≡ true) × (stream (pinged ok c) ≡ stream c)
unfolding pinged
stream-pinged true c h = (h, refl)
stream-pinged false c h = absurd cc
