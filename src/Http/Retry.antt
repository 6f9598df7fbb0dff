-- ===== src/Http/Retry.antt =====
-- Which attempts a call of the HTTP client makes, and which of them gives its result.
use embedded_linux_ota.Prelude.{
  ℕ, zero, suc, ◌+◌, ◌≤◌, ◌<◌, Bool, true, false, ◌||◌, ◌≡◌, ap, ◌∙◌, arith, ltb, ◌==◌, ==_iff,
  Bool-cases, ◌⊎◌, inl, inr,
}
use embedded_linux_ota.Text.{Text}
use embedded_linux_ota.Text.Decimal.{int_limit}
use embedded_linux_ota.Http.{
  HttpResponse, new_response, HttpClient, Attempt, Curl, is_refusal, execute_request, request_error,
  Done, retry, execute_with_retry,
}

-- A request after which no other is made.
abbrev pub is_final : HttpResponse → Bool
is_final r = r.is_success || is_refusal r.status_code

-- The attempt `m` is the first final one from `n` on, or the last one that is made, and gave the
-- response.
pub record IsFirstFinal (attempt : ℕ → Attempt) (n last m : ℕ) (done : Done) : Type 0 where
  pub from : n ≤ m
  pub within : m ≤ last
  pub counted : done.attempts ≡ suc m
  pub answer : done.response ≡ execute_request (attempt m)
  pub earlier : (k : ℕ) → n ≤ k → k < m → is_final (execute_request (attempt k)) ≡ false
  pub stopped : (is_final (execute_request (attempt m)) ≡ true) ⊎ (m ≡ last)

module _ (attempt : ℕ → Attempt) where
  retry_final :
      (left n last : ℕ) (done : Done)
      → n ≤ last
      → is_final (execute_request (attempt n)) ≡ true
      → IsFirstFinal attempt n last n (retry attempt (suc left) n done)
  unfolding retry
  retry_final left n last done p h = record {
    from = omega arith;
    within = omega arith;
    counted = ground arith;
    answer = ground arith;
    earlier = λ k from below. absurd (omega arith);
    stopped = inl h;
  }

  -- What is done after an attempt.
  abbrev after : ℕ → Done → Done
  after n done = record {
    response = execute_request (attempt n);
    last_error = request_error done.last_error (attempt n);
    attempts = suc n;
  }

  retry_go :
      (left n : ℕ) (done : Done)
      → is_final (execute_request (attempt n)) ≡ false
      → retry attempt (suc left) n done ≡ retry attempt left (suc n) (after n done)
  unfolding retry
  retry_go left n done h = ground arith

  retry_end :
      (n last : ℕ) (done : Done)
      → n ≡ last
      → is_final (execute_request (attempt n)) ≡ false
      → IsFirstFinal attempt n last n (retry attempt 1 n done)
  unfolding retry
  retry_end n last done e h = record {
    from = omega arith;
    within = omega arith;
    counted = ground arith;
    answer = ground arith;
    earlier = λ k from below. absurd (omega arith);
    stopped = inr e;
  }

  -- An attempt that is not final comes before the others.
  before :
      (n last m : ℕ) (done : Done)
      → is_final (execute_request (attempt n)) ≡ false
      → IsFirstFinal attempt (suc n) last m done
      → IsFirstFinal attempt n last m done
  before n last m done h first = record {
    from = omega (arith, first.from);
    within = first.within;
    counted = first.counted;
    answer = first.answer;
    earlier = λ k from below. elim (Bool-cases (k == n)) [
      | inl e ↦ ap (λ j. is_final (execute_request (attempt j))) ((==_iff k n).0 e) ∙ h
      | inr e ↦ first.earlier k (ground arith) below
    ];
    stopped = first.stopped;
  }

  retry_lem :
      (left n last : ℕ) (done : Done)
      → n + left ≡ last
      → (m : ℕ) × IsFirstFinal attempt n last m (retry attempt (suc left) n done)
  retry_lem zero n last done e = elim (Bool-cases (is_final (execute_request (attempt n)))) [
    | inl h ↦ (n, retry_final zero n last done (omega arith) h)
    | inr h ↦ (n, retry_end n last done (omega arith) h)
  ]
  retry_lem (suc left) n last done e = elim (Bool-cases (is_final (execute_request (attempt n)))) [
    | inl h ↦ (n, retry_final (suc left) n last done (omega arith) h)
    | inr h ↦
        let (m, first) = retry_lem left (suc n) last (after n done) (omega arith) in
        (m, rw (retry_go (suc left) n done h) (before n last m _ h first))
  ]

-- With a retry count that is not negative, a request is tried at most once more than the count
-- says: the response is that of the first attempt that succeeds or is answered by 400 or 404, or
-- of the last one where there is none, and no attempt is made after it.
pub execute_with_retry_lem :
    (curl : Curl) (client : HttpClient) (url : Text)
    → client.retry_count < int_limit
    → (m : ℕ) × IsFirstFinal
        (curl client url)
        0
        client.retry_count
        m
        (execute_with_retry curl client url)
unfolding execute_with_retry
execute_with_retry_lem curl client url h =
    let start : Done = record {
      response = new_response;
      last_error = client.last_error;
      attempts = 0;
    } in
    let (m, first) =
      retry_lem (curl client url) client.retry_count 0 client.retry_count start (omega arith) in
    let small : ltb client.retry_count int_limit ≡ true = ground arith in (m, rw small first)
