-- ===== src/Topology/Search/Found.antt =====
-- What the search finds: every noted device is reached, and unless the search stopped at a device,
-- every device that can be reached is noted.
use ai_ops.Prelude.{
  some-injective, ℕ, zero, suc, ◌≡◌, refl, sym, ap, ◌∙◌, subst, String, Bool, true, false, ◌||◌,
  some, List, [], ◌∷◌, str_eq, eq_iff, eq_refl, arith, Bool-cases, inl, inr, ◌⊎◌,
}
use ai_ops.Topology.{has}
use ai_ops.Topology.Search.{Explorer, noted, scan, loop}
use ai_ops.Topology.Search.Ends.{IsExplorer}

or-cases : {a : Bool} (b c : Bool) → a ≡ (b || c) → a ≡ true → (b ≡ true) ⊎ (c ≡ true)
or-cases true c e h = inl refl
or-cases false c e h = inr (sym e ∙ h)

module _ {E : Type 0} (x : Explorer E) (laws : IsExplorer x) where
  -- one scan: what was noted or queued stays so, the neighbours are noted, and nothing else is
  record IsScan (ns : List String) (seen after : List E) (frontier queue : List String) (m : String)
      : Type 0 where
    stays : noted x seen m ≡ true → noted x after m ≡ true
    waits : has frontier m ≡ true → has queue m ≡ true
    covers : has ns m ≡ true → noted x after m ≡ true
    adds : noted x after m ≡ true → (noted x seen m ≡ true) ⊎ (has queue m ≡ true)
    source : noted x after m ≡ true → (noted x seen m ≡ true) ⊎ (has ns m ≡ true)
    queues : has queue m ≡ true → (has frontier m ≡ true) ⊎ (noted x after m ≡ true)

  noted-make :
      (current n : String) (seen : List E) (m : String)
      → noted x (x.make current n ∷ seen) m ≡ (str_eq m n || noted x seen m)
  noted-make current n seen m = ap (λ k. str_eq m k || noted x seen m) (laws.make_lem current n)

  noted-at :
      (seen : List E) (n m : String)
      → noted x seen n ≡ true
      → str_eq m n ≡ true
      → noted x seen m ≡ true
  noted-at seen n m h e = ap (noted x seen) ((eq_iff m n).0 e) ∙ h

  scan-IsScan :
      (current : String) (ns : List String) (seen : List E) (frontier : List String) (m : String)
      → IsScan ns seen
          (scan x current ns seen frontier).0
          frontier
          (scan x current ns seen frontier).1
          m
  unfolding scan
  scan-IsScan current [] seen frontier m = record {
    stays = λ h. h;
    waits = λ h. h;
    covers = λ h. absurd (ground arith);
    adds = λ h. inl h;
    source = λ h. inl h;
    queues = λ h. inl h;
  }
  scan-IsScan current (n ∷ ns) seen frontier m = elim (Bool-cases (noted x seen n)) [
    | inl old ↦
        let s = scan-IsScan current ns seen frontier m in
        let same = noted-at seen n m old in
        rw (old, scan)
          record {
            stays = s.stays;
            waits = s.waits;
            covers = λ h. elim (Bool-cases (str_eq m n)) [
              | inl e ↦ s.stays (same e)
              | inr e ↦ s.covers (ground arith)
            ];
            adds = s.adds;
            source = λ h. ground (arith, s.source h);
            queues = s.queues;
          }
    | inr new ↦
        let s = scan-IsScan current ns (x.make current n ∷ seen) (x.push frontier n) m in
        let made = noted-make current n seen m in
        let pushed = laws.has-push frontier n m in
        rw (new, scan)
          record {
            stays = λ h. s.stays (made ∙ ground arith);
            waits = λ h. s.waits (pushed ∙ ground arith);
            covers = λ h. elim (Bool-cases (str_eq m n)) [
              | inl e ↦ s.stays (made ∙ ground arith)
              | inr e ↦ s.covers (ground arith)
            ];
            adds = λ h. elim (s.adds h) [
              | inr queued ↦ inr queued
              | inl there ↦ elim (or-cases (str_eq m n) (noted x seen m) made there) [
                | inl e ↦ inr (s.waits (pushed ∙ ground arith))
                | inr before ↦ inl before
              ]
            ];
            source = λ h. elim (s.source h) [
              | inr later ↦ inr (ground arith)
              | inl there ↦ elim (or-cases (str_eq m n) (noted x seen m) made there) [
                | inl e ↦ inr (ground arith)
                | inr before ↦ inl before
              ]
            ];
            queues = λ h. elim (s.queues h) [
              | inr there ↦ inr there
              | inl there ↦ elim (or-cases (str_eq m n) (has frontier m) pushed there) [
                | inl e ↦ inr (s.stays (made ∙ ground arith))
                | inr before ↦ inl before
              ]
            ];
          }
  ]

  -- each device that was noted waits in the frontier, or all its neighbours were noted
  unfoldable pub IsFront : List E → List String → Type 0
  IsFront seen frontier =
      (m : String)
      → ((has frontier m ≡ true) → noted x seen m ≡ true)
        × (noted x seen m ≡ true
            → (has frontier m ≡ true)
              ⊎ ((k : String) → has (x.next m) k ≡ true → noted x seen k ≡ true))

  pub scan-IsFront :
      (current : String) (seen : List E) (frontier : List String)
      → IsFront seen (current ∷ frontier)
      → IsFront
          (scan x current (x.next current) seen frontier).0
          (scan x current (x.next current) seen frontier).1
  unfolding IsFront
  scan-IsFront current seen frontier front m =
      let s = scan-IsScan current (x.next current) seen frontier m in
      let (waited, noted_before) = front m in
      (
        (λ h. elim (s.queues h) [
          | inl before ↦ s.stays (waited (ground arith))
          | inr there ↦ there
        ]),
        (λ h. elim (s.adds h) [
          | inr queued ↦ inl queued
          | inl before ↦ elim (noted_before before) [
            | inr all_noted ↦ inr (λ k adjacent.
                (scan-IsScan current (x.next current) seen frontier k).stays (all_noted k adjacent))
            | inl waiting ↦ elim (or-cases (str_eq m current) (has frontier m) refl waiting) [
              | inr later ↦ inl (s.waits later)
              | inl this ↦ inr (λ k adjacent.
                  (scan-IsScan current (x.next current) seen frontier k).covers
                    (ap (λ c. has (x.next c) k) (sym ((eq_iff m current).0 this)) ∙ adjacent))
            ]
          ]
        ]),
      )

  -- the search is through: it stopped at a device that it noted, or what it noted is closed
  unfoldable pub IsThrough : List E → Type 0
  IsThrough found =
      ((m : String) × (x.stop m ≡ true) × (noted x found m ≡ true))
      ⊎ ((m k : String) → noted x found m ≡ true → has (x.next m) k ≡ true → noted x found k ≡ true)

  pub loop-IsThrough :
      (fuel : ℕ) (seen : List E) (frontier : List String) {found : List E}
      → IsFront seen frontier
      → loop x fuel seen frontier ≡ some found
      → IsThrough found × ((m : String) → noted x seen m ≡ true → noted x found m ≡ true)
  unfolding loop IsFront IsThrough
  loop-IsThrough fuel seen [] {found} front h =
      let same : seen ≡ found = ground arith in
      subst (λ f. IsThrough f × ((m : String) → noted x seen m ≡ true → noted x f m ≡ true)) same
        (
          inr (λ m k there adjacent. elim ((front m).1 there) [
            | inl waiting ↦ absurd (ground arith)
            | inr all_noted ↦ all_noted k adjacent
          ]),
          λ m there. there,
        )
  loop-IsThrough zero seen (current ∷ frontier) front h = absurd (ground arith)
  loop-IsThrough (suc fuel) seen (current ∷ frontier) {found} front h =
      elim (Bool-cases (x.stop current)) [
        | inl last ↦
            let same : seen ≡ found = some-injective (rw (last, loop) at h) in
            subst (λ f. IsThrough f × ((m : String) → noted x seen m ≡ true → noted x f m ≡ true))
              same
              (
                inl (
                  current,
                  last,
                  (front current).0 (ap (λ b. b || has frontier current) (eq_refl current)),
                ),
                λ m there. there,
              )
        | inr more ↦
            let (through, kept) =
              loop-IsThrough fuel (scan x current (x.next current) seen frontier).0
                (scan x current (x.next current) seen frontier).1
                (scan-IsFront current seen frontier front) (rw (more, loop) at h) in
            (
              through,
              λ m there.
                  kept m ((scan-IsScan current (x.next current) seen frontier m).stays there),
            )
      ]

  -- what holds at the start and passes from a device to its neighbours holds of all that is noted
  pub loop-Each :
      (P : String → Type 0)
      → ((a b : String) → P a → has (x.next a) b ≡ true → P b)
      → (fuel : ℕ) (seen : List E) (frontier : List String) {found : List E} → IsFront seen frontier
      → ((m : String) → noted x seen m ≡ true → P m)
      → loop x fuel seen frontier ≡ some found
      → (m : String) → noted x found m ≡ true
      → P m
  unfolding loop IsFront
  loop-Each P step fuel seen [] {found} front start h m there =
      let same : seen ≡ found = ground arith in start m (ap (λ f. noted x f m) same ∙ there)
  loop-Each P step zero seen (current ∷ frontier) front start h m there = absurd (ground arith)
  loop-Each P step (suc fuel) seen (current ∷ frontier) {found} front start h m there =
      elim (Bool-cases (x.stop current)) [
        | inl last ↦
            let same : seen ≡ found = some-injective (rw (last, loop) at h) in
            start m (ap (λ f. noted x f m) same ∙ there)
        | inr more ↦
            let at_current : noted x seen current ≡ true =
              (front current).0 (ap (λ b. b || has frontier current) (eq_refl current)) in
            loop-Each P step fuel (scan x current (x.next current) seen frontier).0
              (scan x current (x.next current) seen frontier).1
              (scan-IsFront current seen frontier front)
              (λ k noted_k.
                elim ((scan-IsScan current (x.next current) seen frontier k).source noted_k) [
                  | inl before ↦ start k before
                  | inr adjacent ↦ step current k (start current at_current) adjacent
                ])
              (rw (more, loop) at h) m there
      ]
