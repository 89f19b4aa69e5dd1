-- ===== src/Main/Life/Order.antt =====
-- backend/main.go: in which order main closes what it opens.
use mathlib.Core.List.{reverse, reverse-cons, map-append, append_assoc, append-nil}
use grab_seat.Base.{
  inl, inr, Bool-cases, Bool, true, false, ◌≡◌, refl, sym, ◌∙◌, ap, subst, List, [], ◌∷◌, ◌++◌, map,
}
use grab_seat.Base.Text.{Str}
use grab_seat.Service.{Error}
use grab_seat.Config.{Config}
use grab_seat.Main.Boot.{
  Surroundings, Running, Boot, exited, goes_on, ◌>>=◌, open_store, boot, running,
}
use grab_seat.Main.Life.{
  Part, signals, tracer, pool, redis_client, http_server, Act, opened, closed, Process, Code,
  continued, ret, checked, started, open_part, open_parts, start_up, Occurrence, context_done,
  run_deferred, signalled, server_closed, server_failed, react, react_all, Ending, exits, returns,
  serves, listen, ending_of, lifetime, followed,
}

-- The parts are opened in this order.
unfoldable pub after : List Part → Process → Process
after [] p = p
after (part ∷ parts) p = after parts (started part p)

-- All parts are open, or, where the process ends, the first of them.
unfoldable pub Open : {A : Type 0} → List Part → Process → Boot A → Process → Type 0
Open parts p (exited what e) q =
    (first : List Part) × (rest : List Part) × (parts ≡ first ++ rest) × (q ≡ after first p)
Open parts p (goes_on a) q = q ≡ after parts p

-- The code of main ends as the description of its checks does, and opens the parts on its way.
pub record Runs {A : Type 0} (parts : List Part) (b : Boot A) (c : Code A) : Type 0 where
  pub outcome : (p : Process) → (c p).0 ≡ b
  pub opens : (p : Process) → Open parts p b (c p).1

ret-Runs : {A : Type 0} {a : A} → Runs [] (goes_on a) (ret a)
unfolding Open ret after
ret-Runs = record { outcome = λ p. refl; opens = λ p. refl }

checked-Runs :
    {A B : Type 0} {parts : List Part} (b : Boot A) {k : A → Boot B} {f : A → Code B}
    → ((a : A) → Runs parts (k a) (f a))
    → Runs parts (b >>= k) (followed (checked b) f)
unfolding ◌>>=◌ checked followed continued Open after
checked-Runs {parts} (exited what e) h = record {
  outcome = λ p. refl;
  opens = λ p. ([], parts, refl, refl);
}
checked-Runs (goes_on a) h = record { outcome = λ p. (h a).outcome p; opens = λ p. (h a).opens p }

later :
    {B : Type 0} (parts : List Part) (part : Part) (p : Process) (b : Boot B) (q : Process)
    → Open parts (started part p) b q
    → Open (part ∷ parts) p b q
unfolding Open after
later parts part p (exited what e) q (first, rest, split, same) =
    (part ∷ first, rest, ap (◌∷◌ part) split, same)
later parts part p (goes_on b) q h = h

open_part-Runs :
    {B : Type 0} {part : Part} {parts : List Part} {b : Boot B} {f : Code B}
    → Runs parts b f
    → Runs (part ∷ parts) b (followed (open_part part) (λ u. f))
unfolding followed continued open_part
open_part-Runs {part} {parts} {b} h = record {
  outcome = λ p. h.outcome (started part p);
  opens = λ p. later parts part p b _ (h.opens (started part p));
}

ruleset opening = (ret-Runs, checked-Runs, open_part-Runs)

open_parts-Runs :
    (g : Surroundings) (cfg : Config)
    → Runs (pool ∷ redis_client ∷ []) (open_store g cfg) (open_parts g cfg)
unfolding open_store open_parts running
open_parts-Runs g cfg = search opening depth 20

start_up-Runs :
    (g : Surroundings) → Runs (signals ∷ tracer ∷ pool ∷ redis_client ∷ []) (boot g) (start_up g)
unfolding boot start_up
start_up-Runs g = search (opening, open_parts-Runs) depth 20

-- What main opens, in its order: the server is the last.
abbrev pub all_parts : List Part
all_parts = signals ∷ tracer ∷ pool ∷ redis_client ∷ http_server ∷ []

-- The signals, closed once for every error of the listener.
unfoldable pub stops : List Occurrence → List Act
stops [] = []
stops (server_failed e ∷ xs) = closed signals ∷ stops xs
stops (_ ∷ xs) = stops xs

-- How main ends, and what it has opened and closed, the latest first.
unfoldable pub Lives : Boot Running → List Occurrence → Bool → Ending × List Act → Type 0
Lives (exited what e) happened done (ending, acts) =
    (ending ≡ exits what e)
    × (first : List Part) × (rest : List Part) × (all_parts ≡ first ++ rest)
    × (acts ≡ map opened (reverse first))
Lives (goes_on st) happened false (ending, acts) =
    (ending ≡ serves st) × (acts ≡ map opened (reverse all_parts))
Lives (goes_on st) happened true (ending, acts) =
    (ending ≡ returns)
    × (acts ≡ map closed all_parts ++ (stops happened ++ map opened (reverse all_parts)))

abbrev fresh : Process
fresh = record { acts = []; deferred = [] }

acts-after :
    (parts : List Part) (p : Process) → (after parts p).acts ≡ map opened (reverse parts) ++ p.acts
unfolding after started
acts-after [] p = refl
acts-after (part ∷ parts) p =
    acts-after parts (started part p)
    ∙ sym (simp (reverse-cons part parts, map-append, append_assoc))

-- An error of the listener ends the context, so there was none while main serves.
react_all-done :
    (happened : List Occurrence) (acts : List Act)
    → context_done happened ≡ false
    → react_all happened acts ≡ acts
unfolding context_done react_all react
react_all-done [] acts h = refl
react_all-done (signalled ∷ xs) acts h = absurd cc
react_all-done (server_closed ∷ xs) acts h = react_all-done xs acts h
react_all-done (server_failed e ∷ xs) acts h = absurd cc

closes_again :
    (happened : List Occurrence)
    → closed signals ∷ stops happened ≡ stops happened ++ closed signals ∷ []
unfolding stops
closes_again [] = refl
closes_again (signalled ∷ xs) = closes_again xs
closes_again (server_closed ∷ xs) = closes_again xs
closes_again (server_failed e ∷ xs) = ap (◌∷◌ (closed signals)) (closes_again xs)

react_all-stops :
    (happened : List Occurrence) (acts : List Act)
    → react_all happened acts ≡ stops happened ++ acts
unfolding react_all react stops
react_all-stops [] acts = refl
react_all-stops (signalled ∷ xs) acts = react_all-stops xs acts
react_all-stops (server_closed ∷ xs) acts = react_all-stops xs acts
react_all-stops (server_failed e ∷ xs) acts =
    react_all-stops xs (closed signals ∷ acts)
    ∙ (sym (append_assoc (stops xs) (closed signals ∷ []) acts)
        ∙ ap (λ z. z ++ acts) (sym (closes_again xs)))

exited-Lives :
    (first rest : List Part) (what : Str) (e : Error) (happened : List Occurrence) (done : Bool)
    (q : Process)
    → signals ∷ tracer ∷ pool ∷ redis_client ∷ [] ≡ first ++ rest
    → q ≡ after first fresh
    → Lives (exited what e) happened done (exits what e, q.acts)
unfolding Lives
exited-Lives first rest what e happened done q split same = (
  refl,
  first,
  rest ++ http_server ∷ [],
  ap (λ z. z ++ http_server ∷ []) split ∙ append_assoc first rest (http_server ∷ []),
  ap (λ (z : Process). z.acts) same ∙ acts-after first fresh ∙ append-nil _,
)

ending-Lives :
    (b : Boot Running) (happened : List Occurrence) (q : Process)
    → Open (signals ∷ tracer ∷ pool ∷ redis_client ∷ []) fresh b q
    → Lives b happened (context_done happened) (ending_of happened (b, q))
unfolding Lives ending_of listen run_deferred Open after started
ending-Lives (exited what e) happened q (first, rest, split, same) =
    exited-Lives first rest what e happened (context_done happened) q split same
ending-Lives (goes_on st) happened q same = elim (Bool-cases (context_done happened)) [
  | inl done ↦ rw (same, done, react_all-stops happened _) (refl, refl)
  | inr on ↦ rw (same, on, react_all-done happened _ on) (refl, refl)
]

-- Where main exits, it does so as the checks of its start say, with the first of its parts open and
-- none closed: os.Exit runs no deferred call. Where it gets to serve, all parts are open until a
-- signal or an error of the listener. Then it returns, and has shut the server down, and after it
-- closed the client of Redis, the pool, the tracer and the signals, each of them once; before the
-- shutdown nothing was closed but, at an error of the listener, the signals.
pub lifetime-Lives :
    (g : Surroundings) (happened : List Occurrence)
    → Lives (boot g) happened (context_done happened) (lifetime g happened)
unfolding lifetime
lifetime-Lives g happened =
    let runs = start_up-Runs g in
    subst
      (λ z.
        Lives (boot g) happened (context_done happened)
          (ending_of happened (z, (start_up g fresh).1)))
      (sym (runs.outcome fresh))
      (ending-Lives (boot g) happened (start_up g fresh).1 (runs.opens fresh))
