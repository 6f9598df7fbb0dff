-- ===== src/Http/Delivery.antt =====
-- What a download of the HTTP client leaves.
use embedded_linux_ota.Prelude.{
  ℕ, zero, suc, ◌+◌, ◌≤◌, ◌<◌, Bool, true, false, not, ◌&&◌, ◌||◌, ◌++◌, Option, none, some, ◌≡◌,
  refl, sym, ap, ◌∙◌, arith, ltb, ◌==◌, ==_iff, Bool-cases, ◌⊎◌, inl, inr,
}
use embedded_linux_ota.Text.{Text, is_empty}
use embedded_linux_ota.Text.Decimal.{int_limit}
use embedded_linux_ota.Fs.{Files, Env}
use embedded_linux_ota.Text.Search.{text_eq_refl}
use embedded_linux_ota.Http.{
  new_response, HttpClient, Attempt, Curl, is_success_code, is_refusal, Transfer, receive, round,
  transfer, download,
}

abbrev is_none : Option Text → Bool
is_none none = true
is_none (some message) = false

-- An attempt that brings the file.
abbrev pub delivers : Attempt → Bool
delivers a = a.has_handle && (not a.aborted && (is_none a.failure && is_success_code a.http_code))

-- An attempt after which no other is made.
abbrev pub ends : Attempt → Bool
ends a =
    a.has_handle
    && (a.aborted || (is_none a.failure && (is_success_code a.http_code || is_refusal a.http_code)))

pub delivers-ends : (a : Attempt) → delivers a ≡ true → ends a ≡ true
delivers-ends a h = ground arith

module _ (env : Env) (can_remove : Text → Bool) (output_file : Text) where
  -- The attempt `m` is the first that ends the call, and brought the file.
  pub record IsDelivered (attempt : ℕ → Attempt) (n last m : ℕ) (t : Transfer) : Type 0 where
    pub from : n ≤ m
    pub within : m < last
    pub counted : t.attempts ≡ suc m
    pub delivered : delivers (attempt m) ≡ true
    pub earlier : (k : ℕ) → n ≤ k → k < m → ends (attempt k) ≡ false
    pub success : t.response.is_success ≡ true
    pub stored : t.files output_file ≡ some (env.stored output_file (attempt m).received)

  -- No attempt brought the file before one ended the call: there is none, and an error.
  pub record IsMissed (attempt : ℕ → Attempt) (n last : ℕ) (t : Transfer) : Type 0 where
    pub counted : t.attempts ≤ last
    pub failed : t.response.is_success ≡ false
    pub told : is_empty t.response.error ≡ false
    pub absent : t.files output_file ≡ none
    pub undelivered :
        (m : ℕ)
        → n ≤ m
        → m < last
        → delivers (attempt m) ≡ true
        → (k : ℕ) × (n ≤ k) × (k < m) × (ends (attempt k) ≡ true)

  -- The state of the loop: no success and no file yet.
  record IsPending (t : Transfer) : Type 0 where
    failed : t.response.is_success ≡ false
    absent : t.files output_file ≡ none

  module _ (opens : env.can_open output_file ≡ true) (removes : can_remove output_file ≡ true) where
    round-delivers :
        (a : Attempt) (t : Transfer)
        → delivers a ≡ true
        → ((round env can_remove output_file a t).0 ≡ true)
          × ((round env can_remove output_file a t).1.response.is_success ≡ true)
          × ((round env can_remove output_file a t).1.files output_file
              ≡ some (env.stored output_file a.received))
    unfolding round receive
    round-delivers a t h = ground (arith, text_eq_refl output_file)

    round-ends :
        (a : Attempt) (t : Transfer)
        → IsPending t
        → delivers a ≡ false
        → ends a ≡ true
        → ((round env can_remove output_file a t).0 ≡ true)
          × IsPending (round env can_remove output_file a t).1
          × (is_empty (round env can_remove output_file a t).1.response.error ≡ false)
    unfolding round receive
    round-ends a t p h k = let e = text_eq_refl output_file in ground arith

    round_goes_on :
        (a : Attempt) (t : Transfer)
        → IsPending t
        → ends a ≡ false
        → ((round env can_remove output_file a t).0 ≡ false)
          × IsPending (round env can_remove output_file a t).1
    unfolding round receive
    round_goes_on a t p h =
        let e = text_eq_refl output_file in let f = p.failed in let g = p.absent in ground arith

    module _ (attempt : ℕ → Attempt) where
      abbrev counted_round : ℕ → Transfer → Transfer
      counted_round n t = record ((round env can_remove output_file (attempt n) t).1) {
        attempts = suc n;
      }

      stops :
          (left n : ℕ) (t : Transfer)
          → (round env can_remove output_file (attempt n) t).0 ≡ true
          → transfer env can_remove output_file attempt (suc left) n t ≡ counted_round n t
      unfolding transfer
      stops left n t h = ground arith

      goes_on :
          (left n : ℕ) (t : Transfer)
          → (round env can_remove output_file (attempt n) t).0 ≡ false
          → transfer env can_remove output_file attempt (suc left) n t
            ≡ transfer env can_remove output_file attempt left (suc n) (counted_round n t)
      unfolding transfer
      goes_on left n t h = ground arith

      gives_up :
          (n : ℕ) (t : Transfer)
          → IsPending t
          → t.attempts ≡ n
          → IsMissed attempt n n (transfer env can_remove output_file attempt zero n t)
      unfolding transfer
      gives_up n t p c = record {
        counted = ground arith;
        failed = let f = p.failed in ground arith;
        told = ground arith;
        absent = let g = p.absent in ground arith;
        undelivered = λ m from below d. absurd (omega arith);
      }

      -- An attempt that ends nothing comes before the others.
      IsDelivered-before :
          (n last m : ℕ) (t : Transfer)
          → ends (attempt n) ≡ false
          → IsDelivered attempt (suc n) last m t
          → IsDelivered attempt n last m t
      IsDelivered-before n last m t h d = record {
        from = omega (arith, d.from);
        within = d.within;
        counted = d.counted;
        delivered = d.delivered;
        earlier = λ k from below. elim (Bool-cases (k == n)) [
          | inl e ↦ ap (λ j. ends (attempt j)) ((==_iff k n).0 e) ∙ h
          | inr e ↦ d.earlier k (ground arith) below
        ];
        success = d.success;
        stored = d.stored;
      }

      IsMissed-before :
          (n last : ℕ) (t : Transfer)
          → ends (attempt n) ≡ false
          → IsMissed attempt (suc n) last t
          → IsMissed attempt n last t
      IsMissed-before n last t h d = record {
        counted = d.counted;
        failed = d.failed;
        told = d.told;
        absent = d.absent;
        undelivered = λ m from below delivered. elim (Bool-cases (m == n)) [
          | inl e ↦ absurd (
              cc (
                sym (delivers-ends (attempt m) delivered)
                ∙ ap (λ j. ends (attempt j)) ((==_iff m n).0 e)
                ∙ h))
          | inr e ↦
              let (k, more, less, ended) = d.undelivered m (ground arith) below delivered in
              (k, omega arith, less, ended)
        ];
      }

      IsDelivered-here :
          (left n last : ℕ) (t : Transfer)
          → n < last
          → delivers (attempt n) ≡ true
          → IsDelivered attempt n last n
              (transfer env can_remove output_file attempt (suc left) n t)
      IsDelivered-here left n last t l h =
          let (ended, success, stored) = round-delivers (attempt n) t h in
          rw (stops left n t ended) (record {
            from = omega arith;
            within = l;
            counted = refl;
            delivered = h;
            earlier = λ k from below. absurd (omega arith);
            success = success;
            stored = stored;
          })

      IsMissed-here :
          (left n last : ℕ) (t : Transfer)
          → n < last
          → IsPending t
          → delivers (attempt n) ≡ false
          → ends (attempt n) ≡ true
          → IsMissed attempt n last (transfer env can_remove output_file attempt (suc left) n t)
      IsMissed-here left n last t l p h k =
          let (ended, pending, told) = round-ends (attempt n) t p h k in
          rw (stops left n t ended) (record {
            counted = omega arith;
            failed = pending.failed;
            told = told;
            absent = pending.absent;
            undelivered = λ m from below delivered. elim (Bool-cases (m == n)) [
              | inl e ↦
                  absurd
                    (cc (sym delivered ∙ ap (λ j. delivers (attempt j)) ((==_iff m n).0 e) ∙ h))
              | inr e ↦ (n, omega arith, ground arith, k)
            ];
          })

      transfer_lem :
          (left n last : ℕ) (t : Transfer)
          → IsPending t
          → t.attempts ≡ n
          → n + left ≡ last
          → (let t1 = transfer env can_remove output_file attempt left n t in
              ((m : ℕ) × IsDelivered attempt n last m t1) ⊎ IsMissed attempt n last t1)
      transfer_lem zero n last t p c e =
          let same : n ≡ last = omega arith in inr (rw (← same) (gives_up n t p c))
      transfer_lem (suc left) n last t p c e = elim (Bool-cases (delivers (attempt n))) [
        | inl h ↦ inl (n, IsDelivered-here left n last t (omega arith) h)
        | inr h ↦ elim (Bool-cases (ends (attempt n))) [
          | inl k ↦ inr (IsMissed-here left n last t (omega arith) p h k)
          | inr k ↦
              let (ended, pending) = round_goes_on (attempt n) t p k in
              let next =
                transfer_lem left (suc n) last (counted_round n t)
                  (record { failed = pending.failed; absent = pending.absent }) refl
                  (omega arith) in
              rw (goes_on left n t ended) (elim next [
                | inl (m, d) ↦ inl (m, IsDelivered-before n last m _ k d)
                | inr d ↦ inr (IsMissed-before n last _ k d)
              ])
        ]
      ]

-- With an output file that can be opened and removed and is not there before, a download makes at
-- most one attempt more than the retry count says. Either the first attempt that ends it brought
-- the file, and then it succeeds and the file holds what the system stores of what that attempt
-- received, all of it or not, or no attempt brought the file before one ended it, and then it fails
-- with an error and leaves no file.
pub download_cases :
    (env : Env) (can_remove : Text → Bool) (curl : Curl) (client : HttpClient)
    (path output_file : Text) (fs : Files)
    → client.retry_count < int_limit
    → env.can_open output_file ≡ true
    → can_remove output_file ≡ true
    → fs output_file ≡ none
    → (let t = download env can_remove output_file curl client path fs in
        let attempt = curl client (client.server_url ++ path) in
        ((m : ℕ) × IsDelivered env can_remove output_file attempt 0 (suc client.retry_count) m t)
        ⊎ IsMissed env can_remove output_file attempt 0 (suc client.retry_count) t)
unfolding download
download_cases env can_remove curl client path output_file fs h opens removes absent =
    let small : ltb client.retry_count int_limit ≡ true = ground arith in
    let t : Transfer = record {
      files = fs;
      response = new_response;
      last_error = client.last_error;
      attempts = 0;
    } in
    rw small (
      transfer_lem env can_remove output_file opens removes
        (curl client (client.server_url ++ path)) (suc client.retry_count) 0
        (suc client.retry_count) t (record { failed = refl; absent = absent }) refl (omega arith))
