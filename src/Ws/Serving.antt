-- ===== src/Ws/Serving.antt =====
-- backend/ws/client.go: Serve, from the request to the snapshot, and readPump. The handshake of the
-- upgrade is given: it fails if CheckOrigin refuses, or with an error of its own. Serve's goroutine
-- and the rest of the process take turns, so things may happen before the snapshot is sent.
use grab_seat.Base.{
  ℕ, Bool, true, false, not, ◌||◌, ◌&&◌, ◌≡◌, ◌↔◌, refl, inl, inr, List, [], ◌∷◌, Option, none,
  some, Bool-cases, is_some, if◌then◌else◌,
}
use grab_seat.Base.Text.{Str, str_eq}
use grab_seat.Service.{Error, Result, ok, err}
use grab_seat.Ws.{Hub, mem, add, remove, send_snapshot, Happening, then_happen, happen_all}
use grab_seat.Ws.Valid.{Valid, add-Valid, happen_all-Valid, snapshot_panics_iff}

-- newUpgrader's CheckOrigin, on the Origin header
unfoldable pub check_origin : Str → Str → Bool
check_origin allowed origin = str_eq origin [] || str_eq origin allowed

-- Whether the upgrade succeeds.
unfoldable pub upgrades : Str → Str → Option Error → Bool
unfolding check_origin
upgrades allowed origin handshake = check_origin allowed origin && not (is_some handshake)

-- The snapshot is sent if it could be built.
unfoldable pub send_built : ℕ → Result Str → Hub → Option Hub
send_built k (ok snap) h = send_snapshot k snap h
send_built k (err e) h = some h

-- Serve, with what happens to the hub between the start of the pumps and the snapshot
unfoldable pub serve : Str → Str → Option Error → List Happening → Result Str → Hub → Option Hub
unfolding upgrades send_built
serve allowed origin handshake between snap h =
    if upgrades allowed origin handshake
    then then_happen (happen_all between (add h)) (send_built h.next snap)
    else some h

-- readPump of a client: it drops what it reads, and removes the client at the first error.
unfoldable pub read_pump : ℕ → List (Result Str) → Hub → Hub
read_pump k [] h = h
read_pump k (ok msg ∷ reads) h = read_pump k reads h
read_pump k (err e ∷ reads) h = remove k h

built_panics_iff :
    (k : ℕ) (snap : Result Str) (h : Hub)
    → Valid h
    → (send_built k snap h ≡ none) ↔ (((msg : Str) × (snap ≡ ok msg)) × (mem k h.clients ≡ false))
unfolding send_built
built_panics_iff k (ok msg) h v =
    let panics = snapshot_panics_iff k msg h v in
    (λ p. ((msg, refl), panics.0 p), λ (_, gone). panics.1 gone)
built_panics_iff k (err e) h v = (λ p. absurd cc, λ ((msg, is_ok), gone). absurd cc)

-- When a hub is valid and what happens before the snapshot does not panic by itself: Serve panics
-- exactly if the origin and the handshake let it upgrade the connection, the snapshot could be built,
-- and its client has been removed meanwhile.
pub serve_panics_iff :
    (allowed origin : Str) (handshake : Option Error) (between : List Happening) (snap : Result Str)
    (h mid : Hub)
    → Valid h
    → happen_all between (add h) ≡ some mid
    → (serve allowed origin handshake between snap h ≡ none) ↔ (
        (upgrades allowed origin handshake ≡ true)
        × ((msg : Str) × (snap ≡ ok msg))
        × (mem h.next mid.clients ≡ false))
unfolding serve
serve_panics_iff allowed origin handshake between snap h mid v ran =
    let v_mid : Valid mid = happen_all-Valid between (add h) mid (add-Valid h v) ran in
    let panics = built_panics_iff h.next snap mid v_mid in
    elim (Bool-cases (upgrades allowed origin handshake)) [
      | inl up ↦
          rw (up, ran)
            (
              λ p. let (built, gone) = panics.0 p in (refl, built, gone),
              λ (_, built, gone). panics.1 (built, gone),
            )
      | inr refused ↦ rw refused (λ p. absurd cc, λ (up, _, _). absurd cc)
    ]
