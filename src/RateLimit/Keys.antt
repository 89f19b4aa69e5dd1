-- ===== src/RateLimit/Keys.antt =====
-- backend/ratelimit/ratelimit.go: which bucket a request is counted against.
use grab_seat.Base.{
  ℕ, ◌≡◌, ◌⊎◌, inl, inr, ◌∙◌, refl, sym, ap, ◌≢◌, ◌↔◌, Bool, true, ◌&&◌, not, [], ◌∷◌, ◌++◌, Option,
  none, some, ◌==◌, arith, if◌then◌else◌,
}
use grab_seat.Base.Text.{Str, codes}

abbrev pub colon : ℕ
colon = 58

abbrev pub open_bracket : ℕ
open_bracket = 91

abbrev pub close_bracket : ℕ
close_bracket = 93

-- strings.IndexByte: what stands before and after the first `c`.
unfoldable pub cut : ℕ → Str → Option (Str × Str)
cut c [] = none
cut c (d ∷ s) =
    let rest = cut c s in
    if d == c then some ([], s) else elim rest [ none ↦ none | some p ↦ some (d ∷ p.0, p.1) ]

unfoldable pub lacks : ℕ → Str → Bool
lacks c [] = true
lacks c (d ∷ s) = not (d == c) && lacks c s

-- A part with neither a colon nor a bracket.
unfoldable pub is_plain : Str → Bool
unfolding lacks
is_plain s = lacks colon s && lacks open_bracket s && lacks close_bracket s

bracketed : Option (Str × Str) → Option Str
unfolding is_plain
bracketed (some (host, c ∷ port)) =
    if (c == colon) && (lacks open_bracket host && is_plain port) then some host else none
bracketed _ = none

bare : Option (Str × Str) → Option Str
unfolding is_plain
bare (some (host, port)) = if is_plain host && is_plain port then some host else none
bare none = none

-- The host of net.SplitHostPort; its error is `none`.
unfoldable pub split_host : Str → Option Str
unfolding cut bracketed bare
split_host [] = none
split_host (c ∷ s) =
    if c == open_bracket then bracketed (cut close_bracket s) else bare (cut colon (c ∷ s))

-- What clientKey reads of a request; a header that is absent is empty.
pub record Client : Type 0 where
  pub session_id : Str
  pub forwarded_for : Str
  pub remote_addr : Str

host_or : Str → Option Str → Str
host_or addr (some host) = host
host_or addr none = addr

unfoldable pub address : Str → Str → Str
unfolding split_host host_or
address (c ∷ xff) addr = c ∷ xff
address [] addr = host_or addr (split_host addr)

key_of : Str → Str → Str
key_of (c ∷ session) ip = codes "sess:" ++ (c ∷ session)
key_of [] ip = codes "ip:" ++ ip

-- clientKey
unfoldable pub client_key : Client → Str
unfolding key_of address
client_key r = key_of r.session_id (address r.forwarded_for r.remote_addr)

kinds_apart : (s ip : Str) → (codes "sess:" ++ s) ≢ (codes "ip:" ++ ip)
kinds_apart s ip e = ground arith

split_key :
    (s t a b : Str)
    → key_of s a ≡ key_of t b
    → ((s ≢ []) × (s ≡ t)) ⊎ ((s ≡ []) × (t ≡ []) × (a ≡ b))
unfolding key_of
split_key [] [] a b h = inr (refl, refl, cc)
split_key [] (c ∷ t) a b h = absurd (kinds_apart (c ∷ t) a (sym h))
split_key (c ∷ s) [] a b h = absurd (kinds_apart (c ∷ s) b h)
split_key (c ∷ s) (d ∷ t) a b h = inl ((λ e. cc e), cc)

join_key :
    (s t a b : Str)
    → ((s ≢ []) × (s ≡ t)) ⊎ ((s ≡ []) × (t ≡ []) × (a ≡ b))
    → key_of s a ≡ key_of t b
unfolding key_of
join_key [] t a b (inl (named, same)) = absurd (named refl)
join_key (c ∷ s) [] a b (inl (named, same)) = absurd cc
join_key (c ∷ s) (d ∷ t) a b (inl (named, same)) = ap (λ z. codes "sess:" ++ z) same
join_key [] [] a b (inr (p, q, same)) = ap (λ z. codes "ip:" ++ z) same
join_key (c ∷ s) t a b (inr (p, q, same)) = absurd cc
join_key [] (c ∷ t) a b (inr (p, q, same)) = absurd cc

cut-append : (c : ℕ) (s t : Str) → lacks c s ≡ true → cut c (s ++ (c ∷ t)) ≡ some (s, t)
unfolding cut lacks
cut-append c [] t h = ground arith
cut-append c (d ∷ s) t h = ground (arith, cut-append c s t)

bare_lem :
    (c : ℕ) (host port : Str)
    → is_plain (c ∷ host) ≡ true
    → is_plain port ≡ true
    → split_host ((c ∷ host) ++ (colon ∷ port)) ≡ some (c ∷ host)
unfolding split_host is_plain lacks
bare_lem c host port h k = ground (arith, cut-append colon (c ∷ host) port)

bracketed_lem :
    (host port : Str)
    → lacks open_bracket host ≡ true
    → lacks close_bracket host ≡ true
    → is_plain port ≡ true
    → split_host (open_bracket ∷ (host ++ (close_bracket ∷ colon ∷ port))) ≡ some host
unfolding split_host bracketed
bracketed_lem host port o c p = ground (arith, cut-append close_bracket host (colon ∷ port) c)

-- Where a request comes from: what X-Forwarded-For says, else the host of the address of the
-- connection, which is `host:port` or `[host]:port`.
pub data ComesFrom (r : Client) : Str → Type 0 where
  forwarded : r.forwarded_for ≢ [] → ComesFrom r r.forwarded_for
  direct :
      (c : ℕ) (host port : Str)
      → r.forwarded_for ≡ []
      → r.remote_addr ≡ (c ∷ host) ++ (colon ∷ port)
      → is_plain (c ∷ host) ≡ true
      → is_plain port ≡ true
      → ComesFrom r (c ∷ host)
  direct_bracketed :
      (host port : Str)
      → r.forwarded_for ≡ []
      → r.remote_addr ≡ open_bracket ∷ (host ++ (close_bracket ∷ colon ∷ port))
      → lacks open_bracket host ≡ true
      → lacks close_bracket host ≡ true
      → is_plain port ≡ true
      → ComesFrom r host

forwarded_address : (xff addr : Str) → xff ≢ [] → address xff addr ≡ xff
unfolding address
forwarded_address [] addr h = absurd (h refl)
forwarded_address (c ∷ xff) addr h = refl

direct_address :
    (xff addr host : Str) → xff ≡ [] → split_host addr ≡ some host → address xff addr ≡ host
unfolding address host_or
direct_address [] addr host h found = rw found refl
direct_address (c ∷ xff) addr host h found = absurd cc

ComesFrom-address :
    {r : Client} {ip : Str} → ComesFrom r ip → address r.forwarded_for r.remote_addr ≡ ip
ComesFrom-address {r} (forwarded h) = forwarded_address r.forwarded_for r.remote_addr h
ComesFrom-address {r} (direct c host port none_sent same h k) =
    direct_address r.forwarded_for r.remote_addr (c ∷ host) none_sent
      (ap split_host same ∙ bare_lem c host port h k)
ComesFrom-address {r} (direct_bracketed host port none_sent same o c p) =
    direct_address r.forwarded_for r.remote_addr host none_sent
      (ap split_host same ∙ bracketed_lem host port o c p)

-- Two requests share a bucket exactly when they carry the same session, or both carry none and come
-- from the same place: what X-Forwarded-For says, else the host of the connection's address without
-- its port.
pub client_key_iff :
    (a b : Client) (ip jp : Str)
    → ComesFrom a ip
    → ComesFrom b jp
    → (client_key a ≡ client_key b) ↔ (
        ((a.session_id ≢ []) × (a.session_id ≡ b.session_id))
        ⊎ ((a.session_id ≡ []) × (b.session_id ≡ []) × (ip ≡ jp)))
unfolding client_key
client_key_iff a b ip jp from_a from_b =
    rw (ComesFrom-address from_a, ComesFrom-address from_b)
      (
        (λ h. split_key a.session_id b.session_id ip jp h),
        λ h. join_key a.session_id b.session_id ip jp h,
      )
