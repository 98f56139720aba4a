-- ===== src/Trigger/Telegram/Loop/Offsets.antt =====
-- The offsets that the loop asks with: an update that was received is never asked for again.
use mathlib.Core.Path.{subst}
use boilerhouse.Common.{
  ℕ, zero, suc, String, Bool, true, false, List, [], ◌∷◌, Option, none, some, ◌≡◌, refl, ◌⊎◌, inl,
  inr, All, arith, if◌then◌else◌,
}
use boilerhouse.Common.Int.{ℤ, pos, negsuc}
use boilerhouse.Types.Json.{Object}
use boilerhouse.Cluster.{
  M, Env, Error, Result, ok, err, Trace, trace_of, event, running, get_me, delete_webhook,
  get_updates, send_message, dispatch, sleep,
}
use boilerhouse.Cluster.Keeps.{Keeps, Keeps-call, Keeps-pure, Keeps-bind, Keeps-if, Keeps-or_fail}
use boilerhouse.Cluster.Triple.{
  Triple, Triple-call, Triple-bind, Triple-pure, Triple-pre, Triple-within, at_end,
}
use boilerhouse.Trigger.Telegram.Config.{TelegramConfig, parse_telegram_config}
use boilerhouse.Trigger.Telegram.Update.{ParsedUpdate, parse_telegram_update}
use boilerhouse.Trigger.Telegram.Loop.{
  leb_int, next_int, update_id_of, advance, send_reply, handle_parsed, handle_update,
  handle_updates, if_slept, back_off, after_poll, poll_round, poll_loop, with_bot, start,
}

-- The id lies below the offset.
abbrev pub Past : ℤ → Object → Type 0
Past offset u = leb_int offset (update_id_of u) ≡ false

-- Every update that was received is good.
abbrev pub Received : (Object → Type 0) → Trace → Type 0
Received Good [] = Unit
Received Good (event (get_updates api offset timeout types) (ok us) ∷ t) =
    All Good us × Received Good t
Received Good (_ ∷ t) = Received Good t

-- Every question asks for ids above those of all updates received before it.
abbrev pub Acknowledges : Trace → Type 0
Acknowledges [] = Unit
Acknowledges (event (get_updates api offset timeout types) x ∷ t) =
    Received (Past offset) t × Acknowledges t
Acknowledges (_ ∷ t) = Acknowledges t

abbrev Among : Object → List Object → Type 0
Among u [] = ⊥
Among u (r ∷ rs) = (r ≡ u) ⊎ Among u rs

lt-next : (o i x : ℤ) → leb_int o x ≡ false → leb_int o i ≡ true → leb_int (next_int i) x ≡ false
unfolding leb_int next_int
lt-next (pos o) (pos i) (pos x) above below = ground arith
lt-next (pos o) (pos i) (negsuc x) above below = refl
lt-next (pos o) (negsuc i) x above below = absurd cc
lt-next (negsuc o) (pos i) (pos x) above below = absurd cc
lt-next (negsuc o) (pos i) (negsuc x) above below = refl
lt-next (negsuc o) (negsuc i) (pos x) above below = absurd cc
lt-next (negsuc o) (negsuc zero) (negsuc x) above below = refl
lt-next (negsuc o) (negsuc (suc i)) (negsuc x) above below = ground arith

next-Past : (i : ℤ) → leb_int (next_int i) i ≡ false
unfolding leb_int next_int
next-Past (pos n) = ground arith
next-Past (negsuc zero) = refl
next-Past (negsuc (suc n)) = ground arith

-- What is past stays past, and the update that is handled becomes so.
advance-Past : (o i : ℤ) (u : Object) → Past o u → Past (advance o i) u
unfolding advance
advance-Past o i u past = go (leb_int o i) refl
  where
    go :
        (b : Bool)
        → leb_int o i ≡ b
        → leb_int (if b then next_int i else o) (update_id_of u) ≡ false
    go true below = lt-next o i (update_id_of u) past below
    go false above = past

advance_self : (o : ℤ) (u : Object) → Past (advance o (update_id_of u)) u
unfolding advance
advance_self o u = go (leb_int o (update_id_of u)) refl
  where
    go :
        (b : Bool)
        → leb_int o (update_id_of u) ≡ b
        → leb_int (if b then next_int (update_id_of u) else o) (update_id_of u) ≡ false
    go true below = next-Past (update_id_of u)
    go false above = above

All-map :
    (G H : Object → Type 0) → ((u : Object) → G u → H u) → (us : List Object) → All G us → All H us
All-map G H f [] h = tt
All-map G H f (u ∷ us) (first, others) = (f u first, All-map G H f us others)

Received-map :
    (G H : Object → Type 0) → ((u : Object) → G u → H u) → (t : Trace) → Received G t → Received H t
Received-map G H f [] h = tt
Received-map G H f (event (get_updates api offset timeout types) (ok us) ∷ t) (now, before) =
    (All-map G H f us now, Received-map G H f t before)
Received-map G H f (event (get_updates api offset timeout types) (err e) ∷ t) h =
    Received-map G H f t h
Received-map G H f (event _ x ∷ t) h = Received-map G H f t h

-- The updates that are not past are among those still to be handled.
abbrev Due : ℤ → List Object → Object → Type 0
Due offset us u = Past offset u ⊎ Among u us

abbrev Pending : ℤ → List Object → Trace → Type 0
Pending offset us t = Received (Due offset us) t × Acknowledges t

handled :
    (o : ℤ) (r : Object) (us : List Object) (u : Object)
    → Due o (r ∷ us) u
    → Due (advance o (update_id_of r)) us u
handled o r us u (inl past) = inl (advance-Past o (update_id_of r) u past)
handled o r us u (inr (inl same)) =
    inl (subst (Past (advance o (update_id_of r))) same (advance_self o r))
handled o r us u (inr (inr later)) = inr later

All-Among :
    (o : ℤ) (us all : List Object) → ((u : Object) → Among u us → Among u all) → All (Due o all) us
All-Among o [] all within = tt
All-Among o (u ∷ us) all within =
    (inr (within u (inl refl)), All-Among o us all (λ r later. within r (inr later)))

-- Before a question: all that was received is past.
abbrev Settled : ℤ → Trace → Type 0
Settled offset t = Received (Past offset) t × Acknowledges t

settled : (o : ℤ) (u : Object) → Due o [] u → Past o u
settled o u (inl past) = past
settled o u (inr never) = absurd never

module _ (cfg : TelegramConfig) (api : String) where
  send-Pending :
      (o : ℤ) (us : List Object) (chat : Option ℤ) (reply : String)
      → Keeps (Pending o us) (send_reply api chat reply)
  unfolding send_reply
  send-Pending o us none reply = Keeps-pure tt
  send-Pending o us (some chat) reply =
      Keeps-bind _ _ (Keeps-call (send_message api chat reply) (λ t x h. h)) (λ sent. Keeps-pure tt)

  update-Pending :
      (o : ℤ) (us : List Object) (u : Object) (parsed : Option ParsedUpdate)
      → Keeps (Pending o us) (handle_update cfg api u parsed)
  unfolding handle_update handle_parsed
  update-Pending o us u none = Keeps-pure tt
  update-Pending o us u (some parsed) =
      Keeps-if _ _ _
        (Keeps-bind _ _ (Keeps-call (dispatch _) (λ t x h. h))
          (λ result. send-Pending o us parsed.chat_id _))
        (Keeps-pure tt)

  updates-Settled :
      (us : List Object) (o : ℤ)
      → Triple Acknowledges (Pending o us) Settled (handle_updates cfg api o us)
  unfolding handle_updates
  updates-Settled [] o = Triple-pure o (λ t h. (Received-map _ _ (settled o) t h.0, h.1))
  updates-Settled (u ∷ us) o =
      Triple-bind (λ _. Pending o (u ∷ us))
        (Triple-within (λ t h. h.1) (update-Pending o (u ∷ us) u (parse_telegram_update u)))
        (λ _.
          Triple-pre (λ t h. (Received-map _ _ (handled o u us) t h.0, h.1))
            (updates-Settled us (advance o (update_id_of u))))

  -- What an answer leaves to do.
  abbrev Asked : ℤ → Result (List Object) → Trace → Type 0
  Asked o (ok us) t = Pending o us t
  Asked o (err e) t = Settled o t

  Asked-event :
      (o : ℤ) (t : Trace) (x : Result (List Object))
      → Settled o t
      → Asked o x (event (get_updates api o cfg.poll_timeout cfg.update_types) x ∷ t)
  Asked-event o t (ok us) h =
      ((All-Among o us us (λ u m. m), Received-map _ _ (λ u past. inl past) t h.0), (h.0, h.1))
  Asked-event o t (err e) h = (h.0, (h.0, h.1))

  module _ (next : ℤ → M (Unit {0}))
      (rest : (o : ℤ) → Triple Acknowledges (Settled o) (λ _. Acknowledges) (next o)) where
    slept-Acknowledges :
        (o : ℤ) (slept : Bool)
        → Triple Acknowledges (Settled o) (λ _. Acknowledges) (if_slept (next o) slept)
    unfolding if_slept
    slept-Acknowledges o true = rest o
    slept-Acknowledges o false = Triple-pure tt (λ t h. h.1)

    off-Acknowledges :
        (o : ℤ) (alive : Bool)
        → Triple Acknowledges (Settled o) (λ _. Acknowledges) (back_off (next o) alive)
    unfolding back_off
    off-Acknowledges o false = Triple-pure tt (λ t h. h.1)
    off-Acknowledges o true =
        Triple-bind (λ _. Settled o) (Triple-call (sleep _) (λ t x h. h)) (slept-Acknowledges o)

    after-Acknowledges :
        (o : ℤ) (x : Result (List Object))
        → Triple Acknowledges (Asked o x) (λ _. Acknowledges) (after_poll cfg api o next x)
    unfolding after_poll
    after-Acknowledges o (err e) =
        Triple-bind (λ _. Settled o) (Triple-call running (λ t x h. h)) (off-Acknowledges o)
    after-Acknowledges o (ok us) = Triple-bind Settled (updates-Settled us o) rest

    round-Acknowledges :
        (o : ℤ) (alive : Bool)
        → Triple Acknowledges (Settled o) (λ _. Acknowledges) (poll_round cfg api o next alive)
    unfolding poll_round
    round-Acknowledges o false = Triple-pure tt (λ t h. h.1)
    round-Acknowledges o true =
        Triple-bind (Asked o) (Triple-call (get_updates _ _ _ _) (Asked-event o))
          (after-Acknowledges o)

  loop-Acknowledges :
      (rounds : ℕ) (o : ℤ)
      → Triple Acknowledges (Settled o) (λ _. Acknowledges) (poll_loop cfg api rounds o)
  unfolding poll_loop
  loop-Acknowledges zero o = Triple-pure tt (λ t h. h.1)
  loop-Acknowledges (suc rounds) o =
      Triple-bind (λ _. Settled o) (Triple-call running (λ t x h. h))
        (round-Acknowledges (poll_loop cfg api rounds) (loop-Acknowledges rounds) o)

-- Before the first question nothing was received.
abbrev Silent : Trace → Type 0
Silent t = ((o : ℤ) → Received (Past o) t) × Acknowledges t

bot-Acknowledges :
    (cfg : TelegramConfig) (api : String) (rounds : ℕ) (me : Option Error)
    → Triple Acknowledges Silent (λ _. Acknowledges) (with_bot cfg api rounds me)
unfolding with_bot
bot-Acknowledges cfg api rounds (some e) = Triple-pure tt (λ t h. h.1)
bot-Acknowledges cfg api rounds none =
    Triple-bind (λ _. Silent) (Triple-call (delete_webhook api) (λ t x h. h))
      (λ cleared. Triple-pre (λ t h. (h.0 (pos 0), h.1)) (loop-Acknowledges cfg api rounds (pos 0)))

start-Keeps :
    (config : Option Object) (rounds : ℕ)
    → Triple Acknowledges Silent (λ _. Acknowledges) (start config rounds)
unfolding start
start-Keeps config rounds =
    Triple-bind (λ _. Silent)
      (Triple-within (λ t h. h.1) (Keeps-or_fail (parse_telegram_config config)))
      (λ cfg.
        Triple-bind (λ _. Silent) (Triple-call (get_me _) (λ t x h. h))
          (bot-Acknowledges cfg _ rounds))

-- In any world and for any number of rounds, the polling of a Telegram bot asks for updates only above the ids of
-- all updates that it has received before, so that none is delivered to it again.
pub start-Acknowledges :
    (config : Option Object) (rounds : ℕ) (env : Env)
    → Acknowledges (trace_of (start config rounds env []))
start-Acknowledges config rounds env =
    at_end Acknowledges (λ _ t h. h) (λ t h. h) (start-Keeps config rounds) env (λ o. tt, tt)
