-- ===== src/Executor/Handshake.antt =====
-- Which first messages an executor accepts, and what it does with the rates behind them.
use overload.Common.{◌≡◌, ap, ◌↔◌, ◌⊎◌, inl, inr, List, [], ◌∷◌, some, some_injective}
use overload.Executor.Session.{
  Received, timed_out, broken, closed, message, check_for_metadata_msg, try_request_msg,
  check_for_request_msg,
}
use overload.Executor.Connection.{check_for_request_after, shake_hands}
use overload.Foreign.{Foreign}
use overload.Http.{Request}
use overload.Messages.{Metadata, MessageFromPrimary}

module _ {F : Foreign} where
  -- A metadata message, then a request, perhaps behind a reset.
  abbrev pub IsGreeting : List (Received F) → Request F → List (Received F) → Type 0
  IsGreeting rx request rest =
      (m : Metadata) × ((rx
          ≡ message (MessageFromPrimary.metadata m)
            ∷ message (MessageFromPrimary.request request)
            ∷ rest)
        ⊎ (rx
            ≡ message (MessageFromPrimary.metadata m)
              ∷ message MessageFromPrimary.reset
              ∷ message (MessageFromPrimary.request request)
              ∷ rest))

  abbrev IsAsked : List (Received F) → Request F → List (Received F) → Type 0
  IsAsked rx request rest =
      (rx ≡ message (MessageFromPrimary.request request) ∷ rest)
      ⊎ (rx
          ≡ message MessageFromPrimary.reset ∷ message (MessageFromPrimary.request request) ∷ rest)

  one_try :
      (rx : List (Received F)) (request : Request F) (rest : List (Received F))
      → try_request_msg 1 rx ≡ some (request, rest)
      → rx ≡ message (MessageFromPrimary.request request) ∷ rest
  unfolding try_request_msg
  one_try [] request rest h = cc h
  one_try (timed_out ∷ rx) request rest h = cc h
  one_try (broken ∷ rx) request rest h = cc h
  one_try (closed ∷ rx) request rest h = cc h
  one_try (message (MessageFromPrimary.metadata m) ∷ rx) request rest h = cc h
  one_try (message (MessageFromPrimary.rates r) ∷ rx) request rest h = cc h
  one_try (message MessageFromPrimary.stop ∷ rx) request rest h = cc h
  one_try (message MessageFromPrimary.finished ∷ rx) request rest h = cc h
  one_try (message MessageFromPrimary.reset ∷ rx) request rest h = cc h
  one_try (message (MessageFromPrimary.request r) ∷ rx) request rest h =
      ap (λ p. message (MessageFromPrimary.request p.0) ∷ p.1) (some_injective h)

  two_tries :
      (rx : List (Received F)) (request : Request F) (rest : List (Received F))
      → check_for_request_msg rx ≡ some (request, rest)
      → IsAsked rx request rest
  unfolding try_request_msg
  two_tries [] request rest h = cc h
  two_tries (timed_out ∷ rx) request rest h = cc h
  two_tries (broken ∷ rx) request rest h = cc h
  two_tries (closed ∷ rx) request rest h = cc h
  two_tries (message (MessageFromPrimary.metadata m) ∷ rx) request rest h = cc h
  two_tries (message (MessageFromPrimary.rates r) ∷ rx) request rest h = cc h
  two_tries (message MessageFromPrimary.stop ∷ rx) request rest h = cc h
  two_tries (message MessageFromPrimary.finished ∷ rx) request rest h = cc h
  two_tries (message MessageFromPrimary.reset ∷ rx) request rest h =
      inr (ap (λ l. message MessageFromPrimary.reset ∷ l) (one_try rx request rest h))
  two_tries (message (MessageFromPrimary.request r) ∷ rx) request rest h =
      inl (ap (λ p. message (MessageFromPrimary.request p.0) ∷ p.1) (some_injective h))

  behind :
      (m : Metadata) (rx : List (Received F)) (request : Request F) (rest : List (Received F))
      → IsAsked rx request rest
      → IsGreeting (message (MessageFromPrimary.metadata m) ∷ rx) request rest
  behind m rx request rest (inl e) =
      (m, inl (ap (λ l. message (MessageFromPrimary.metadata m) ∷ l) e))
  behind m rx request rest (inr e) =
      (m, inr (ap (λ l. message (MessageFromPrimary.metadata m) ∷ l) e))

  greeted :
      (rx : List (Received F)) (request : Request F) (rest : List (Received F))
      → shake_hands rx ≡ some (request, rest)
      → IsGreeting rx request rest
  unfolding shake_hands check_for_request_after check_for_metadata_msg
  greeted [] request rest h = cc h
  greeted (timed_out ∷ rx) request rest h = cc h
  greeted (broken ∷ rx) request rest h = cc h
  greeted (closed ∷ rx) request rest h = cc h
  greeted (message (MessageFromPrimary.metadata m) ∷ rx) request rest h =
      behind m rx request rest (two_tries rx request rest h)
  greeted (message (MessageFromPrimary.rates r) ∷ rx) request rest h = cc h
  greeted (message MessageFromPrimary.stop ∷ rx) request rest h = cc h
  greeted (message MessageFromPrimary.finished ∷ rx) request rest h = cc h
  greeted (message MessageFromPrimary.reset ∷ rx) request rest h = cc h
  greeted (message (MessageFromPrimary.request r) ∷ rx) request rest h = cc h

  accepts :
      (rx : List (Received F)) (request : Request F) (rest : List (Received F))
      → IsGreeting rx request rest
      → shake_hands rx ≡ some (request, rest)
  unfolding shake_hands check_for_request_after check_for_metadata_msg try_request_msg
  accepts rx request rest (m, inl e) = ap shake_hands e
  accepts rx request rest (m, inr e) = ap shake_hands e

  -- An executor starts a test exactly if its primary sends the metadata, then at most one reset, and
  -- then the request; anything else in front, or a broken channel, is refused.
  pub shake_hands-IsGreeting :
      (rx : List (Received F)) (request : Request F) (rest : List (Received F))
      → (shake_hands rx ≡ some (request, rest)) ↔ IsGreeting rx request rest
  shake_hands-IsGreeting rx request rest = (greeted rx request rest, accepts rx request rest)
