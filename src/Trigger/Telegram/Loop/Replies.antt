-- ===== src/Trigger/Telegram/Loop/Replies.antt =====
-- What the loop hands on and what it answers in the chats.
use mathlib.Core.Path.{subst}
use boilerhouse.Common.{
  ℕ, zero, suc, String, Bool, true, false, List, [], ◌∷◌, Option, none, some, ◌≡◌, ◌≢◌, refl, sym,
  ◌⊎◌, inl, inr, Bool-cases, ◌==◌, ==_self, ==_sound, if◌then◌else◌,
}
use boilerhouse.Common.Int.{ℤ}
use boilerhouse.Types.Json.{Json, Object}
use boilerhouse.Types.Adapter.{Payload}
use boilerhouse.Cluster.{
  M, Env, Result, ok, err, Trace, trace_of, event, pure, running, get_updates, send_message,
  dispatch, sleep,
}
use boilerhouse.Cluster.Triple.{Triple, Triple-call, Triple-bind, Triple-pure, at_end}
use boilerhouse.Trigger.Telegram.Config.{TelegramConfig}
use boilerhouse.Trigger.Telegram.Update.{
  ParsedUpdate, parse_telegram_update, telegram_update_to_payload,
}
use boilerhouse.Trigger.Telegram.Loop.{
  generic_error_reply, extract_response_text, reply_text, contains_string, update_id_of, advance,
  send_reply, handle_parsed, handle_update, handle_updates, if_slept, back_off, after_poll,
  poll_round, poll_loop,
}

abbrev pub Among : Object → List Object → Type 0
Among u [] = ⊥
Among u (r ∷ rs) = (r ≡ u) ⊎ Among u rs

abbrev pub WasReceived : Object → Trace → Type 0
WasReceived u [] = ⊥
WasReceived u (event (get_updates api offset timeout types) (ok us) ∷ t) =
    Among u us ⊎ WasReceived u t
WasReceived u (_ ∷ t) = WasReceived u t

-- What a user may be told: the text of the result, or the generic reply where there is none.
abbrev pub Says : String → Result Json → Type 0
Says s (err e) = s ≡ generic_error_reply
Says s (ok result) =
    (s ≢ "")
    × ((s ≡ extract_response_text result)
        ⊎ ((s ≡ generic_error_reply) × (extract_response_text result ≡ "")))

-- Neither text is empty.
generic_filled : generic_error_reply ≢ ""
generic_filled e = cc

filled_ne : (s : String) → (s == "") ≡ false → s ≢ ""
filled_ne s filled e = let empty : (s == "") ≡ true = rw e (==_self "") in absurd cc

reply-Says : (r : Result Json) → Says (reply_text r) r
unfolding reply_text
reply-Says (err e) = refl
reply-Says (ok result) = elim (Bool-cases (extract_response_text result == "")) [
  | inl empty ↦
      rw empty (generic_filled, inr (refl, ==_sound (extract_response_text result) "" empty))
  | inr filled ↦ rw filled (filled_ne (extract_response_text result) filled, inl refl)
]

module _ (cfg : TelegramConfig) where
  -- The payload is that of an update of a kind that is asked for.
  abbrev pub Carries : Payload → Object → ParsedUpdate → Type 0
  Carries p u parsed =
      (parse_telegram_update u ≡ some parsed)
      × (contains_string cfg.update_types parsed.update_type ≡ true)
      × (p ≡ telegram_update_to_payload parsed u)

  -- The newest call handed on an update of this chat, and the text answers its result.
  abbrev pub RepliesTo : ℤ → String → Trace → Type 0
  RepliesTo chat s (event (dispatch p) r ∷ t) =
      ((u : Object) × (parsed : ParsedUpdate) × Carries p u parsed × (parsed.chat_id ≡ some chat))
      × Says s r
  RepliesTo chat s _ = ⊥

  abbrev pub Discreet : Trace → Type 0
  Discreet [] = Unit
  Discreet (event (dispatch p) r ∷ t) =
      ((u : Object) × (parsed : ParsedUpdate) × WasReceived u t × Carries p u parsed) × Discreet t
  Discreet (event (send_message api chat s) x ∷ t) = RepliesTo chat s t × Discreet t
  Discreet (_ ∷ t) = Discreet t

  -- The updates at hand were received.
  abbrev Held : List Object → Trace → Type 0
  Held us t = ((u : Object) → Among u us → WasReceived u t) × Discreet t

  -- The newest call handed the update on and had this answer.
  abbrev Handed : Object → ParsedUpdate → Result Json → Trace → Type 0
  Handed u parsed r (event (dispatch p) r' ∷ t) = Carries p u parsed × (r' ≡ r)
  Handed u parsed r _ = ⊥

  reply-RepliesTo :
      (u : Object) (parsed : ParsedUpdate) (r : Result Json) (chat : ℤ)
      → parsed.chat_id ≡ some chat
      → (t : Trace) → Handed u parsed r t
      → RepliesTo chat (reply_text r) t
  reply-RepliesTo u parsed r chat is [] h = absurd h
  reply-RepliesTo u parsed r chat is (event (dispatch p) r' ∷ t) (carries, same) =
      ((u, parsed, carries, is), subst (Says (reply_text r)) (sym same) (reply-Says r))
  reply-RepliesTo u parsed r chat is (event _ x ∷ t) h = absurd h

  module _ (api : String) (us : List Object) where
    -- After an update was handed on, its reply may be sent.
    send-Discreet :
        (u : Object) (parsed : ParsedUpdate) (r : Result Json) (chat : Option ℤ)
        → parsed.chat_id ≡ chat
        → Triple Discreet
            (λ t. Handed u parsed r t × Held us t)
            (λ _. Held us)
            (send_reply api chat (reply_text r))
    unfolding send_reply
    send-Discreet u parsed r none is = Triple-pure tt (λ t h. h.1)
    send-Discreet u parsed r (some chat) is =
        Triple-bind (λ _. Held us)
          (Triple-call (send_message api chat (reply_text r))
            (λ t x h. (h.1.0, (reply-RepliesTo u parsed r chat is t h.0, h.1.1))))
          (λ x. Triple-pure tt (λ t h. h))

    parsed-Discreet :
        (u : Object) (parsed : ParsedUpdate)
        → Among u us
        → parse_telegram_update u ≡ some parsed
        → contains_string cfg.update_types parsed.update_type ≡ true
        → Triple Discreet (Held us) (λ _. Held us) (handle_parsed api u parsed)
    unfolding handle_parsed
    parsed-Discreet u parsed among is asked =
        Triple-bind (λ r t. Handed u parsed r t × Held us t)
          (Triple-call (dispatch _) (λ t r h.
            (((is, asked, refl), refl), (h.0, ((u, parsed, h.0 u among, (is, asked, refl)), h.1)))))
          (λ r. send-Discreet u parsed r parsed.chat_id refl)

    update-Discreet :
        (u : Object)
        → Among u us
        → (o : Option ParsedUpdate) → parse_telegram_update u ≡ o
        → Triple Discreet (Held us) (λ _. Held us) (handle_update cfg api u o)
    unfolding handle_update
    update-Discreet u among none is = Triple-pure tt (λ t h. h)
    update-Discreet u among (some parsed) is =
        go (contains_string cfg.update_types parsed.update_type) refl
      where
        go :
            (b : Bool)
            → contains_string cfg.update_types parsed.update_type ≡ b
            → Triple Discreet
                (Held us)
                (λ _. Held us)
                (if b then handle_parsed api u parsed else pure tt)
        go true asked = parsed-Discreet u parsed among is asked
        go false other = Triple-pure tt (λ t h. h)

  module _ (api : String) where
    updates-Discreet :
        (us todo : List Object) (offset : ℤ)
        → ((u : Object) → Among u todo → Among u us)
        → Triple Discreet (Held us) (λ _. Discreet) (handle_updates cfg api offset todo)
    unfolding handle_updates
    updates-Discreet us [] offset within = Triple-pure offset (λ t h. h.1)
    updates-Discreet us (u ∷ todo) offset within =
        Triple-bind (λ _. Held us)
          (update-Discreet api us u (within u (inl refl)) (parse_telegram_update u) refl)
          (λ _.
            updates-Discreet us todo (advance offset (update_id_of u))
              (λ r later. within r (inr later)))

    abbrev Asked : Result (List Object) → Trace → Type 0
    Asked (ok us) t = Held us t
    Asked (err e) t = Discreet t

    Asked-event :
        (offset : ℤ) (t : Trace) (x : Result (List Object))
        → Discreet t
        → Asked x (event (get_updates api offset cfg.poll_timeout cfg.update_types) x ∷ t)
    Asked-event offset t (ok us) h = (λ u among. inl among, h)
    Asked-event offset t (err e) h = h

    module _ (next : ℤ → M (Unit {0}))
        (rest : (o : ℤ) → Triple Discreet Discreet (λ _. Discreet) (next o)) where
      off-Discreet :
          (o : ℤ) (alive : Bool)
          → Triple Discreet Discreet (λ _. Discreet) (back_off (next o) alive)
      unfolding back_off if_slept
      off-Discreet o false = Triple-pure tt (λ t h. h)
      off-Discreet o true = Triple-bind (λ _. Discreet) (Triple-call (sleep _) (λ t x h. h)) go
        where
          go : (slept : Bool) → Triple Discreet Discreet (λ _. Discreet) (if_slept (next o) slept)
          go true = rest o
          go false = Triple-pure tt (λ t h. h)

      after-Discreet :
          (o : ℤ) (x : Result (List Object))
          → Triple Discreet (Asked x) (λ _. Discreet) (after_poll cfg api o next x)
      unfolding after_poll
      after-Discreet o (err e) =
          Triple-bind (λ _. Discreet) (Triple-call running (λ t x h. h)) (off-Discreet o)
      after-Discreet o (ok us) =
          Triple-bind (λ _. Discreet) (updates-Discreet us us o (λ u m. m)) rest

      round-Discreet :
          (o : ℤ) (alive : Bool)
          → Triple Discreet Discreet (λ _. Discreet) (poll_round cfg api o next alive)
      unfolding poll_round
      round-Discreet o false = Triple-pure tt (λ t h. h)
      round-Discreet o true =
          Triple-bind Asked (Triple-call (get_updates _ _ _ _) (Asked-event o)) (after-Discreet o)

    loop-Discreet :
        (rounds : ℕ) (o : ℤ) → Triple Discreet Discreet (λ _. Discreet) (poll_loop cfg api rounds o)
    unfolding poll_loop
    loop-Discreet zero o = Triple-pure tt (λ t h. h)
    loop-Discreet (suc rounds) o =
        Triple-bind (λ _. Discreet) (Triple-call running (λ t x h. h))
          (round-Discreet (poll_loop cfg api rounds) (loop-Discreet rounds) o)

-- In any world and for any number of rounds of polling: every payload that is handed on carries an update that
-- was received and is of a kind that is asked for; and every message that is sent follows at once on the handing
-- on of an update of the same chat, and says the text of the result or, where handing on failed or the result
-- has no text, the generic reply, and so never an error nor an empty text.
pub poll_loop-Discreet :
    (cfg : TelegramConfig) (api : String) (rounds : ℕ) (offset : ℤ) (env : Env)
    → Discreet cfg (trace_of (poll_loop cfg api rounds offset env []))
poll_loop-Discreet cfg api rounds offset env =
    at_end (Discreet cfg) (λ _ t h. h) (λ t h. h) (loop-Discreet cfg api rounds offset) env tt
