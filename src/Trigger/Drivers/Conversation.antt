-- ===== src/Trigger/Drivers/Conversation.antt =====
-- What a conversation with a bridge comes to, for go/internal/trigger/driver_claude_code.go and driver_pi.go.
use Prim.Native.String.append
use text.Mathlib.TextLemmas.{append-nil, append_assoc}
use boilerhouse.Common.{
  String, Bool, true, false, List, [], ◌∷◌, Option, none, some, ◌==◌, ◌<>◌, ◌≡◌, refl, ==_sound, ap,
  ◌∙◌, ◌||◌, ◌&&◌, if◌then◌else◌,
}
use boilerhouse.Types.Json.{Json, Object, text_at, or_empty}
use boilerhouse.Cluster.{Error, wrap, message, Result, ok, err}
use boilerhouse.Trigger.Drivers.{message_type, text_reply, read_reply}

abbrev pub is_end : String → Bool
is_end type = type == "idle" || type == "exit" || type == "error"

-- The messages before the first that ends the conversation.
abbrev pub before_end : List Object → List Object
before_end [] = []
before_end (m ∷ ms) = let rest = before_end ms in if is_end (message_type m) then [] else m ∷ rest

-- The message that ends the conversation.
abbrev pub end_of : List Object → Option Object
end_of [] = none
end_of (m ∷ ms) = let rest = end_of ms in if is_end (message_type m) then some m else rest

-- The texts of all messages of output.
abbrev pub output_text : List Object → String
output_text [] = ""
output_text (m ∷ ms) =
    let rest = output_text ms in
    if message_type m == "output" then or_empty (text_at "text" m) <> rest else rest

module _ (tag : String) (exited : Object → String) (broken : Error) where
  -- The output counts unless the bridge reports an error or the connection breaks before an end.
  abbrev pub conclude : String → Option Object → Result Json
  conclude output none = err (wrap (tag <> ": read") broken)
  conclude output (some m) =
      if message_type m == "error"
      then err (message (tag <> ": bridge error: " <> or_empty (text_at "message" m)))
      else if message_type m == "exit" && output == ""
      then ok (text_reply (exited m))
      else ok (text_reply output)

  abbrev Concludes : String → List Object → Type 0
  Concludes sb ms =
      read_reply tag exited broken sb ms ≡ conclude (sb <> output_text (before_end ms)) (end_of ms)

  -- The five kinds of messages.
  output_step :
      (m : Object) (ms : List Object) (sb : String)
      → message_type m ≡ "output"
      → Concludes (sb <> or_empty (text_at "text" m)) ms
      → Concludes sb (m ∷ ms)
  unfolding read_reply
  output_step m ms sb is ih =
      let written = or_empty (text_at "text" m) in
      rw (is, is)
        (ih
          ∙ ap (λ s. conclude s (end_of ms))
              (append_assoc sb written (output_text (before_end ms))))

  idle_step :
      (m : Object) (ms : List Object) (sb : String)
      → message_type m ≡ "idle"
      → Concludes sb (m ∷ ms)
  unfolding read_reply
  idle_step m ms sb is = rw (is, append-nil sb, is) refl

  exit_step :
      (m : Object) (ms : List Object) (sb : String)
      → message_type m ≡ "exit"
      → Concludes sb (m ∷ ms)
  unfolding read_reply
  exit_step m ms sb is = rw (is, append-nil sb, is) refl

  error_step :
      (m : Object) (ms : List Object) (sb : String)
      → message_type m ≡ "error"
      → Concludes sb (m ∷ ms)
  unfolding read_reply
  error_step m ms sb is = rw (is, is) refl

  skip_step :
      (m : Object) (ms : List Object) (sb : String)
      → (message_type m == "output") ≡ false
      → (message_type m == "idle") ≡ false
      → (message_type m == "exit") ≡ false
      → (message_type m == "error") ≡ false
      → Concludes sb ms
      → Concludes sb (m ∷ ms)
  unfolding read_reply
  skip_step m ms sb o i x e ih = rw (o, i, x, e, o) ih

  by_type :
      (m : Object) (ms : List Object) (sb : String)
      → ((written : String) → Concludes written ms)
      → (o : Bool) → (message_type m == "output") ≡ o
      → (i : Bool) → (message_type m == "idle") ≡ i
      → (x : Bool) → (message_type m == "exit") ≡ x
      → (e : Bool) → (message_type m == "error") ≡ e
      → Concludes sb (m ∷ ms)
  by_type m ms sb ih true o_is i i_is x x_is e e_is =
      output_step m ms sb (==_sound (message_type m) "output" o_is)
        (ih (sb <> or_empty (text_at "text" m)))
  by_type m ms sb ih false o_is true i_is x x_is e e_is =
      idle_step m ms sb (==_sound (message_type m) "idle" i_is)
  by_type m ms sb ih false o_is false i_is true x_is e e_is =
      exit_step m ms sb (==_sound (message_type m) "exit" x_is)
  by_type m ms sb ih false o_is false i_is false x_is true e_is =
      error_step m ms sb (==_sound (message_type m) "error" e_is)
  by_type m ms sb ih false o_is false i_is false x_is false e_is =
      skip_step m ms sb o_is i_is x_is e_is (ih sb)

  accumulate : (ms : List Object) (sb : String) → Concludes sb ms
  unfolding read_reply
  accumulate [] sb = refl
  accumulate (m ∷ ms) sb =
      by_type m ms sb (λ written. accumulate ms written) (message_type m == "output") refl
        (message_type m == "idle") refl (message_type m == "exit") refl (message_type m == "error")
        refl

  -- What the drivers for the bridges return depends on the messages up to the first of type idle, exit or error only:
  -- it is the texts of all output before that one, joined in order, on idle and on exit; the words for an exit code where
  -- an exit follows no output; and an error on the type error or when the connection breaks before any of the three.
  pub read_reply-conclude :
      (messages : List Object)
      → read_reply tag exited broken "" messages
        ≡ conclude (output_text (before_end messages)) (end_of messages)
  read_reply-conclude messages =
      accumulate messages ""
      ∙ ap (λ output. conclude output (end_of messages))
          (append.nil (output_text (before_end messages)))
