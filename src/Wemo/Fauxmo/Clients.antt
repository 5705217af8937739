-- ===== src/Wemo/Fauxmo/Clients.antt =====
-- The connect handler of Fauxmo::getTCPClientHandler: which slot a new client takes.
use futronix_alexa.Base.{
  ℕ, suc, ◌+◌, ◌≡◌, refl, ap, ◌∙◌, Bool, true, false, some, none, List, [], ◌∷◌, get_elem?, set,
  take, All, arith, Bool-cases, inl, inr, ◌⊎◌, if_true, if_false,
}
use futronix_alexa.Wemo.Fauxmo.{Fauxmo, Slot, unset, empty, client}
use futronix_alexa.Wemo.Fauxmo.Tcp.{find_slot, connect_client}

-- A slot that was set, at least to NULL.
abbrev pub IsAssigned : Slot → Type 0
IsAssigned unset = ⊥
IsAssigned empty = Unit
IsAssigned (client c) = Unit

module _ (connected : ℕ → Bool) where
  -- A slot with a client that is connected, and one without.
  abbrev pub IsBusy : Slot → Type 0
  IsBusy unset = ⊥
  IsBusy empty = ⊥
  IsBusy (client c) = connected c ≡ true

  abbrev pub IsFree : Slot → Type 0
  IsFree unset = ⊥
  IsFree empty = Unit
  IsFree (client c) = connected c ≡ false

  -- The first slot that is free.
  pub record IsFirstFree (slots : List Slot) (k : ℕ) : Type 0 where
    pub slot : Slot
    pub at : get_elem? slots k ≡ some slot
    pub free : IsFree slot
    pub earlier_busy : All IsBusy (take k slots)

  find_slot_lem :
      (i : ℕ) (slots : List Slot)
      → All IsAssigned slots
      → ((find_slot connected i slots ≡ some none) × All IsBusy slots)
        ⊎ ((k : ℕ) × (find_slot connected i slots ≡ some (some (i + k))) × IsFirstFree slots k)
  unfolding find_slot
  find_slot_lem i [] h = inl (refl, tt)
  find_slot_lem i (unset ∷ slots) h = absurd h.0
  find_slot_lem i (empty ∷ slots) h = inr (
    0,
    ap (λ n. some (some n)) (omega arith),
    record { slot = empty; at = refl; free = tt; earlier_busy = tt },
  )
  find_slot_lem i (client c ∷ slots) h = elim (Bool-cases (connected c)) [
    | inr gone ↦ inr (
      0,
      if_false _ _ gone ∙ ap (λ n. some (some n)) (omega arith),
      record { slot = client c; at = refl; free = gone; earlier_busy = tt },
    )
    | inl there ↦ elim (find_slot_lem (suc i) slots h.1) [
      | inl (full, busy) ↦ inl (if_true _ _ there ∙ full, (there, busy))
      | inr (k, found, first) ↦ inr (
        suc k,
        if_true _ _ there ∙ found ∙ ap (λ n. some (some n)) (omega arith),
        record {
          slot = first.slot;
          at = first.at;
          free = first.free;
          earlier_busy = (there, first.earlier_busy);
        },
      )
    ]
  ]

  -- On an enabled object whose slots were all assigned, a new client takes the first slot that is
  -- NULL or whose client is gone, and no other slot changes; if each slot has a connected client,
  -- it is refused and nothing changes.
  pub connect_client_lem :
      (c : ℕ) (f : Fauxmo)
      → f.enabled ≡ true
      → All IsAssigned f.clients
      → ((connect_client connected c f ≡ some (f, none)) × All IsBusy f.clients)
        ⊎ ((k : ℕ) × (connect_client connected c f
              ≡ some (record f { clients = set f.clients k (client c) }, some k))
            × IsFirstFree f.clients k)
  unfolding connect_client
  connect_client_lem c f on h = elim (find_slot_lem 0 f.clients h) [
    | inl (full, busy) ↦ inl (if_true _ _ on ∙ rw full, busy)
    | inr (k, found, first) ↦
        let here : find_slot connected 0 f.clients ≡ some (some k) =
          found ∙ ap (λ n. some (some n)) (omega arith) in
        inr (k, if_true _ _ on ∙ rw here, first)
  ]
