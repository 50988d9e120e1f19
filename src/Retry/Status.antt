-- ===== src/Retry/Status.antt =====
-- What a lease shows of its recovery and what a new sandbox leaves of it, api/retry.go.
use spoond.Base.{
  ℕ, ◌≡◌, refl, true, false, not, ◌&&◌, ◌||◌, Option, none, List, [], ◌∷◌, if◌then◌else◌, arith,
  Any, Bool-cases, clash, inl, inr, ◌⊎◌, ◌∙◌,
}
use spoond.Base.Text.{Text, text_eq, text_eq_refl, text_eq→eq, text_eq_of_eq, text_eq_comm}
use spoond.Retry.{
  RetryBudget, Retries, put, is_of, recovery_status, clear_recovery_retries, retry_pending,
  note_retry_failure,
}

put_other :
    (key j : Text) (b : Option RetryBudget) (m : Retries)
    → text_eq j key ≡ false
    → put key b m j ≡ m j
put_other key j b m e = rw e refl

module _ (lease sandbox : Text) where
  -- The budgets that recoveryStatus leaves alone.
  recovery_status_keeps :
      (keys : List Text) (m : Retries) (j : Text)
      → (is_of lease (m j) && not (text_eq j sandbox)) ≡ false
      → (recovery_status lease sandbox keys m).0 j ≡ m j
  unfolding recovery_status
  recovery_status_keeps [] m j h = refl
  recovery_status_keeps (key ∷ keys) m j h = elim (Bool-cases (is_of lease (m key))) [
    | inr e ↦ rw e (recovery_status_keeps keys m j h)
    | inl e ↦ elim (Bool-cases (text_eq key sandbox)) [
      | inl s ↦ rw (e, s) refl
      | inr s ↦
          rw (e, s)
            (elim (Bool-cases (text_eq j key)) [
              | inl t ↦ let same = text_eq→eq j key t in absurd (ground (arith, same))
              | inr t ↦
                  let p = put_other key j none m t in
                  recovery_status_keeps keys (put key none m) j (rw p h) ∙ p
            ])
    ]
  ]

  -- With no budget of the lease for its sandbox there is nothing to show.
  status_none :
      (keys : List Text) (m : Retries)
      → is_of lease (m sandbox) ≡ false
      → (recovery_status lease sandbox keys m).1 ≡ none
  unfolding recovery_status
  status_none [] m h = refl
  status_none (key ∷ keys) m h = elim (Bool-cases (is_of lease (m key))) [
    | inr e ↦ rw e (status_none keys m h)
    | inl e ↦ elim (Bool-cases (text_eq key sandbox)) [
      | inl s ↦ let same = text_eq→eq key sandbox s in absurd (ground (arith, same))
      | inr s ↦
          let p = put_other key sandbox none m (text_eq_comm sandbox key ∙ s) in
          rw (e, s) (status_none keys (put key none m) (rw p h))
    ]
  ]

  status_some :
      (keys : List Text) (m : Retries)
      → is_of lease (m sandbox) ≡ true
      → Any (λ k. k ≡ sandbox) keys
      → (recovery_status lease sandbox keys m).1 ≡ m sandbox
  unfolding recovery_status
  status_some [] m h k = absurd k
  status_some (key ∷ keys) m h k = elim (Bool-cases (text_eq key sandbox)) [
    | inl s ↦ let same = text_eq→eq key sandbox s in rw same (rw (h, text_eq_refl sandbox) refl)
    | inr s ↦
        let rest : Any (λ k. k ≡ sandbox) keys = elim k [
          | inl a ↦ absurd (clash (text_eq_of_eq key sandbox a) s)
          | inr b ↦ b
        ] in
        let p = put_other key sandbox none m (text_eq_comm sandbox key ∙ s) in
        elim (Bool-cases (is_of lease (m key))) [
          | inr e ↦ rw e (status_some keys m h rest)
          | inl e ↦ rw (e, s) (status_some keys (put key none m) (rw p h) rest ∙ p)
        ]
  ]

  -- Whatever the order in which the map is iterated, a lease shows the budget of its own sandbox
  -- when that budget is the lease's, and nothing else; the budgets of other leases, and its own for
  -- that sandbox, stay as they are. The order names the sandbox if a budget of the lease is there.
  pub recovery_status_lem :
      (keys : List Text) (m : Retries) (j : Text)
      → (is_of lease (m sandbox) ≡ false) ⊎ Any (λ k. k ≡ sandbox) keys
      → (is_of lease (m j) && not (text_eq j sandbox)) ≡ false
      → ((recovery_status lease sandbox keys m).1
          ≡ (if is_of lease (m sandbox) then m sandbox else none))
        × ((recovery_status lease sandbox keys m).0 j ≡ m j)
  recovery_status_lem keys m j listed h = (
    elim (Bool-cases (is_of lease (m sandbox))) [
      | inr e ↦ rw e (status_none keys m e)
      | inl e ↦ rw e (elim listed [ inl f ↦ absurd (clash e f) | inr k ↦ status_some keys m e k ])
    ],
    recovery_status_keeps keys m j h,
  )

  cleared :
      (m : Retries) (key : Text)
      → (text_eq key sandbox || is_of lease (m key)) ≡ true
      → clear_recovery_retries lease sandbox m key ≡ none
  unfolding clear_recovery_retries
  cleared m key h = rw h refl

  cleared_other :
      (m : Retries) (key : Text)
      → (text_eq key sandbox || is_of lease (m key)) ≡ false
      → clear_recovery_retries lease sandbox m key ≡ m key
  unfolding clear_recovery_retries
  cleared_other m key h = rw h refl

  first_note :
      (m : Retries) (key : Text) (now limit window : ℕ)
      → m key ≡ none
      → (note_retry_failure now key lease limit window m).1 ≡ 1
  unfolding note_retry_failure
  first_note m key now limit window h = ground arith

  not_pending : (m : Retries) (key : Text) → m key ≡ none → retry_pending m key ≡ false
  unfolding retry_pending
  not_pending m key h = ground arith

  is_of-none : (o : Option RetryBudget) → o ≡ none → is_of lease o ≡ false
  is_of-none o h = rw h refl

  -- Once the budgets of a lease are cleared, in every order of iteration it shows no recovery, its
  -- sandbox has none pending, the next failure for a key that was the lease's is the first, and the
  -- budget of another lease for another sandbox is as it was.
  pub clear_recovery_retries_lem :
      (keys : List Text) (m : Retries) (key other : Text) (now limit window : ℕ)
      → is_of lease (m key) ≡ true
      → (text_eq other sandbox || is_of lease (m other)) ≡ false
      → ((recovery_status lease sandbox keys (clear_recovery_retries lease sandbox m)).1 ≡ none)
        × (retry_pending (clear_recovery_retries lease sandbox m) sandbox ≡ false)
        × ((note_retry_failure now key lease limit window
              (clear_recovery_retries lease sandbox m)).1
            ≡ 1)
        × (clear_recovery_retries lease sandbox m other ≡ m other)
  clear_recovery_retries_lem keys m key other now limit window h o =
      let r = text_eq_refl sandbox in
      let gone = cleared m sandbox (ground arith) in
      (
        status_none keys (clear_recovery_retries lease sandbox m) (is_of-none _ gone),
        not_pending (clear_recovery_retries lease sandbox m) sandbox gone,
        first_note (clear_recovery_retries lease sandbox m) key now limit window
            (cleared m key (ground arith)),
        cleared_other m other o,
      )
