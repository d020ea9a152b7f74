-- ===== src/Receive/Waiting.antt =====
-- The data that waits for synchronisation in the receiver of src/receive.rs.
use sacn_rust.Common.Results.{Outcome-cases}
use sacn_rust.Common.{
  ◌-◌, ◌<◌, ltb→lt, lt→ltb, ℕ, ◌==◌, ◌≡◌, ◌⊎◌, ◌↔◌, ◌∙◌, ◌&&◌, refl, sym, ap, subst, inl, inr, Bool,
  true, false, not, Option, none, some, List, [], ◌∷◌, ok, err, panic, if◌then◌else◌, ℕ_discrete,
  arith, Bool-cases, Option-cases, eq→==,
}
use sacn_rust.Common.HashMap.{insert, get, remove, retain, get-insert, get-remove}
use sacn_rust.Common.HashMap.Keys.{
  get-cons-cases, keep, HasDistinctKeys, get-retain, get-tail, get-head,
}
use sacn_rust.Packet.Constants.{e131_network_data_loss_timeout}
use sacn_rust.Receive.Merge.{DmxData}
use sacn_rust.Receive.Receiver.{SacnReceiver, is_recent}
use sacn_rust.Receive.Handlers.{released, still_waiting, rtrv_waiting_data, store_waiting_data}
use sacn_rust.Error.{Result}
use mathlib.Core.Logic.{ite}

-- What storing comes to for one universe: the data that waits, and the data that is new.
unfoldable pub stored :
    {U : Type 0}
    → (DmxData U → DmxData U → Result U (DmxData U))
    → DmxData U
    → Option (DmxData U)
    → Result U (Unit {0}) × Option (DmxData U)
stored merge new none = (ok tt, some new)
stored merge new (some existing) = elim (merge existing new) [
  | ok m ↦ (ok tt, some m)
  | err e ↦ (err e, none)
  | panic ↦ (panic, none)
]

pub IsAmong : {A : Type 0} → A → List A → Type 0
IsAmong d [] = ⊥
IsAmong d (x ∷ xs) = (x ≡ d) ⊎ IsAmong d xs

module _ {S U : Type 0} where
  pub store_waiting_data_first :
      (d : DmxData U) (self : SacnReceiver S U)
      → get ℕ_discrete d.universe self.waiting_data ≡ none
      → store_waiting_data d self
        ≡ (ok tt, record self { waiting_data = insert ℕ_discrete d.universe d self.waiting_data })
  unfolding store_waiting_data
  store_waiting_data_first d self e = rw (store_waiting_data, e)

  -- `store_waiting_data` returns what `stored` says for the data that waits for the universe of the
  -- new data, on every branch: the new data if none waits, the merged data if the merge function
  -- succeeds, and nothing at all if it fails, with its error; the data of other universes stays.
  pub store_waiting_data-stored :
      (d : DmxData U) (v : ℕ) (self : SacnReceiver S U)
      → ((store_waiting_data d self).0
          ≡ (stored self.merge_func d (get ℕ_discrete d.universe self.waiting_data)).0)
        × (get ℕ_discrete v ((store_waiting_data d self).1).waiting_data
            ≡ ite
                (ℕ_discrete d.universe v)
                ((stored self.merge_func d (get ℕ_discrete d.universe self.waiting_data)).1)
                (get ℕ_discrete v self.waiting_data))
  unfolding store_waiting_data stored
  store_waiting_data-stored d v self =
      elim (Option-cases (get ℕ_discrete d.universe self.waiting_data)) [
        | inl e ↦ (
          rw (store_waiting_data, stored, e) refl,
          rw (store_waiting_data, e) (get-insert ℕ_discrete d.universe v d self.waiting_data),
        )
        | inr (old, e) ↦ elim (Outcome-cases (self.merge_func old d)) [
          | inl (m, r) ↦ (
            rw (store_waiting_data, stored, e, r) refl,
            rw (store_waiting_data, stored, e, r)
                (get-insert ℕ_discrete d.universe v m
                    (remove ℕ_discrete d.universe self.waiting_data)
                  ∙ ground (arith, get-remove ℕ_discrete d.universe v self.waiting_data)),
          )
          | inr (inl (x, r)) ↦ (
            rw (store_waiting_data, stored, e, r) refl,
            rw (store_waiting_data, stored, e, r)
                (get-remove ℕ_discrete d.universe v self.waiting_data),
          )
          | inr (inr r) ↦ (
            rw (store_waiting_data, stored, e, r) refl,
            rw (store_waiting_data, stored, e, r)
                (get-remove ℕ_discrete d.universe v self.waiting_data),
          )
        ]
      ]

module _ {U : Type 0} where
  still_waiting_lem :
      (sync_uni : ℕ) (m : List (ℕ × DmxData U))
      → still_waiting sync_uni m ≡ retain (λ d. not (d.sync_uni == sync_uni)) m
  unfolding still_waiting retain
  still_waiting_lem sync_uni [] = refl
  still_waiting_lem sync_uni ((u, d) ∷ m) = ground (arith, still_waiting_lem sync_uni m)

  -- Data that is released: it waits for the universe, and is not too old.
  abbrev pub IsDue : ℕ → ℕ → DmxData U → Type 0
  IsDue now sync_uni d =
      (d.sync_uni ≡ sync_uni) × (now - d.recv_timestamp < e131_network_data_loss_timeout)

  abbrev is_due : ℕ → ℕ → DmxData U → Bool
  is_due now sync_uni d = (d.sync_uni == sync_uni) && is_recent now d

  IsDue→is_due :
      (now sync_uni : ℕ) (d : DmxData U) → IsDue now sync_uni d → is_due now sync_uni d ≡ true
  IsDue→is_due now sync_uni d (k, l) =
      let recent = lt→ltb (now - d.recv_timestamp) e131_network_data_loss_timeout l in
      rw (eq→== d.sync_uni sync_uni k, recent)

  is_due→IsDue :
      (now sync_uni : ℕ) (d : DmxData U) → is_due now sync_uni d ≡ true → IsDue now sync_uni d
  is_due→IsDue now sync_uni d h =
      (ground arith, ltb→lt (now - d.recv_timestamp) e131_network_data_loss_timeout (ground arith))

  IsAmong-later :
      (t : Bool) (d x : DmxData U) (rest : List (DmxData U))
      → IsAmong d rest
      → IsAmong d (if t then x ∷ rest else rest)
  unfolding IsAmong
  IsAmong-later true d x rest h = inr h
  IsAmong-later false d x rest h = h

  get-nil : (u : ℕ) → get {V = DmxData U} ℕ_discrete u [] ≡ none
  unfolding get
  get-nil u = refl

  released_due :
      (now sync_uni : ℕ) (m : List (ℕ × DmxData U)) (u : ℕ) (d : DmxData U)
      → get ℕ_discrete u m ≡ some d
      → IsDue now sync_uni d
      → IsAmong d (released now sync_uni m)
  unfolding released IsAmong
  released_due now sync_uni [] u d h k = let e = get-nil u in cc
  released_due now sync_uni ((j, x) ∷ m) u d h due = elim (get-cons-cases ℕ_discrete u j x d m h) [
    | inl (_, e) ↦
        subst
          (λ y. IsAmong d (
            if is_due now sync_uni y then y ∷ released now sync_uni m else released now sync_uni m))
          (sym e) (rw (IsDue→is_due now sync_uni d due) (inl refl))
    | inr g ↦
        IsAmong-later (is_due now sync_uni x) d x (released now sync_uni m)
          (released_due now sync_uni m u d g due)
  ]

  IsDue-released :
      (now sync_uni : ℕ) (m : List (ℕ × DmxData U)) (d : DmxData U)
      → HasDistinctKeys ℕ_discrete m
      → IsAmong d (released now sync_uni m)
      → (u : ℕ) × (get ℕ_discrete u m ≡ some d) × IsDue now sync_uni d
  unfolding released IsAmong HasDistinctKeys
  IsDue-released now sync_uni [] d h k = elim k [ ]
  IsDue-released now sync_uni ((j, x) ∷ m) d (p, h) k =
      let later : IsAmong d (released now sync_uni m)
          → (u : ℕ) × (get ℕ_discrete u ((j, x) ∷ m) ≡ some d) × IsDue now sync_uni d =
        λ k2.
          let (u, g, due) = IsDue-released now sync_uni m d h k2 in
          (u, get-tail ℕ_discrete u j x d m p g, due) in
      elim (Bool-cases (is_due now sync_uni x)) [
        | inl e ↦ elim (rw e at k) [
          | inl q ↦ (
            j,
            get-head ℕ_discrete j x m ∙ ap some q,
            subst (IsDue now sync_uni) q (is_due→IsDue now sync_uni x e),
          )
          | inr k2 ↦ later k2
        ]
        | inr e ↦ later (rw e at k)
      ]

module _ {S U : Type 0} where
  -- A release hands on exactly the data that is due, and leaves the data of other synchronisation
  -- universes.
  pub rtrv_waiting_data-released :
      (now sync_uni : ℕ) (self : SacnReceiver S U)
      → HasDistinctKeys ℕ_discrete self.waiting_data
      → ((d : DmxData U)
          → IsAmong d ((rtrv_waiting_data now sync_uni self).0)
            ↔ (u : ℕ) × (get ℕ_discrete u self.waiting_data ≡ some d) × IsDue now sync_uni d)
        × ((u : ℕ)
            → get ℕ_discrete u ((rtrv_waiting_data now sync_uni self).1).waiting_data
              ≡ keep (λ d. not (d.sync_uni == sync_uni)) (get ℕ_discrete u self.waiting_data))
  unfolding rtrv_waiting_data
  rtrv_waiting_data-released now sync_uni self h = (
    λ d. (
      IsDue-released now sync_uni self.waiting_data d h,
      λ (u, g, due). released_due now sync_uni self.waiting_data u d g due,
    ),
    λ u.
        ap (get ℕ_discrete u) (still_waiting_lem sync_uni self.waiting_data)
        ∙ get-retain ℕ_discrete (λ d. not (d.sync_uni == sync_uni)) u self.waiting_data h,
  )
