-- ===== src/Telegram/Outcome.antt =====
-- What one attempt of the Telegram senders comes to.
use hermes_sentinel.Base.{
  ℕ, suc, ◌≡◌, refl, ◌⊎◌, inl, inr, Bool, true, false, String, List, Option, none, some, ltb,
  length, arith,
}
use hermes_sentinel.Result.{Result, ok, err, value_error, telegram_delivery_error, recursion_error}
use hermes_sentinel.Server.Dispatch.{read}
use hermes_sentinel.Telegram.{TelegramSettings}
use hermes_sentinel.Telegram.Confirmed.{
  Parses, Confirms, Classified, classify_bounded_response-Classified,
}
use hermes_sentinel.Telegram.Sender.{
  too_deep, TelegramFormats, response_body_limit_bytes, unreadable, readable, Exchange, unreachable,
  http_error, response, message_document, request_url, Opener, classify_bounded_response,
  classify_reading, closing, exchange, attempt, send,
}

module _ (formats : TelegramFormats) where
  open formats use {Text, decode_utf8, loads, dumps_utf8}

  abbrev pub limited : List ℕ → List ℕ
  limited stream = read (suc response_body_limit_bytes) stream

  -- an exchange that delivered the message
  abbrev pub Delivered : Exchange → Type 0
  Delivered (response (readable status stream) false) = Confirms formats status (limited stream)
  Delivered _ = ⊥

  -- an exchange whose body the JSON parser gives up on
  abbrev pub TooDeep : Exchange → Type 0
  TooDeep (response (readable status stream) close_fails) =
      Parses formats status (limited stream) too_deep
  TooDeep _ = ⊥

  abbrev pub responses : Exchange → ℕ
  responses unreachable = 0
  responses (http_error status close_fails) = 1
  responses (response reading close_fails) = 1

  abbrev pub Outcome : Exchange → Result (Unit {0}) → ℕ → Type 0
  Outcome x (ok done) closed = Delivered x × (closed ≡ 1)
  Outcome x (err e) closed =
      ((e ≡ telegram_delivery_error) × (closed ≡ responses x) × (¬ Delivered x))
      ⊎ ((e ≡ recursion_error) × (closed ≡ 0) × TooDeep x)

  closing-Outcome :
      (status : ℕ) (stream : List ℕ) (close_fails : Bool) (r : Result Bool)
      → Classified formats status (limited stream) r
      → Outcome
          (response (readable status stream) close_fails)
          (closing formats r close_fails).0
          (closing formats r close_fails).1
  closing-Outcome status stream close_fails (err e) (p, q) = inr (p, refl, q)
  closing-Outcome status stream true (ok false) c = inl (refl, refl, λ h. h)
  closing-Outcome status stream false (ok false) c = inl (refl, refl, c)
  closing-Outcome status stream true (ok true) c = inl (refl, refl, λ h. h)
  closing-Outcome status stream false (ok true) c = (c, refl)

  exchange-Outcome : (x : Exchange) → Outcome x (exchange formats x).0 (exchange formats x).1
  unfolding exchange classify_reading
  exchange-Outcome unreachable = inl (refl, refl, λ h. h)
  exchange-Outcome (http_error status close_fails) = inl (refl, refl, λ h. h)
  exchange-Outcome (response unreadable close_fails) = inl (refl, refl, λ h. h)
  exchange-Outcome (response (readable status stream) close_fails) =
      closing-Outcome status stream close_fails _
        (classify_bounded_response-Classified formats status (limited stream))

  abbrev pub Attempted :
      TelegramSettings → Opener → Option (List ℕ) → Result (Unit {0}) → ℕ → Type 0
  Attempted settings open_request none r closed = (r ≡ err value_error) × (closed ≡ 0)
  Attempted settings open_request (some body) r closed =
      Outcome
        (open_request (record { url = request_url settings; body = body }) settings.timeout_seconds)
        r closed

  -- A message whose JSON body cannot be encoded raises a value error, and nothing is closed. Any other one
  -- comes to what the exchange of its request comes to. The call returns exactly if the response has
  -- status 200, a body of at most 8192 bytes, UTF-8 of a JSON object whose last "ok" is true, and its one
  -- close succeeds. Otherwise it raises the delivery error, with every acquired response closed once,
  -- except that the parser's `RecursionError` on a body nested too deeply escapes as it is, with the
  -- response left open.
  pub send-Attempted :
      (settings : TelegramSettings) (open_request : Opener) (message : String)
      → let x = send formats settings open_request message in
        Attempted settings open_request (dumps_utf8 (message_document message settings)) x.0 x.1
  unfolding send
  send-Attempted settings open_request message = go (dumps_utf8 (message_document message settings))
    where
      go :
          (body : Option (List ℕ))
          → let x = attempt formats settings open_request body in
            Attempted settings open_request body x.0 x.1
      go none = (refl, refl)
      go (some body) = exchange-Outcome (
          open_request (record { url = request_url settings; body = body })
            settings.timeout_seconds)

  classify_too_deep :
      (status : ℕ) (raw : List ℕ)
      → Parses formats status raw too_deep
      → classify_bounded_response formats status raw ≡ err recursion_error
  unfolding classify_bounded_response
  classify_too_deep status raw (p, q, t, d, l) =
      let fits : ltb response_body_limit_bytes (length raw) ≡ false = ground arith in
      rw p (rw fits (rw d (rw l refl)))

  -- A response with status 200 and a body within the limit that the JSON parser gives up on: the parser's
  -- error escapes, which is not the delivery error, and the response is never closed.
  pub exchange-TooDeep : (x : Exchange) → TooDeep x → exchange formats x ≡ (err recursion_error, 0)
  unfolding exchange classify_reading
  exchange-TooDeep (response (readable status stream) close_fails) h =
      rw (classify_too_deep status (limited stream) h) refl
  exchange-TooDeep unreachable h = absurd h
  exchange-TooDeep (http_error status close_fails) h = absurd h
  exchange-TooDeep (response unreadable close_fails) h = absurd h
