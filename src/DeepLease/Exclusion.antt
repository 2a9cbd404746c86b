-- ===== src/DeepLease/Exclusion.antt =====
-- At most one lease of a deep scan is current, and one that it has replaced stays void.
use webprobe.Base.{
  ℕ, ◌≡◌, refl, ◌≢◌, All, inl, inr, true, false, Option, none, some, List, [], ◌∷◌, any, all, find,
  eqb, arith, Bool-cases, throw, ok,
}
use webprobe.Base.Text.{Text, text_key}
use webprobe.Security.Urls.{Url, IpLibrary}
use webprobe.DeepLease.Rows.{
  Attempt, Database, DeepLease, DeepGrantIdentity, is_of_lease, is_deep_running, equals,
}
use webprobe.DeepLease.Claims.{is_held, interrupt, release_deep_lease}
use webprobe.DeepLease.Checks.{assert_deep_lease, is_renewable, renew_row, is_live, has_row}
use webprobe.DeepLease.Steps.{System, Reach, Steps}
use webprobe.DeepLease.Attempts.{Old, IsOrdered, is_fenced, is_idle}
use webprobe.DeepLease.Newest.{newest-find}
use webprobe.DeepLease.Endings.{Persist, write_persist}
use webprobe.DeepLease.Safety.{Reach-IsSound}
use webprobe.DeepLease.Fence.{any-idle, map-idle, find-idle, Steps-is_fenced}

-- The newest attempt is the lease's.
abbrev pub IsNewest : DeepLease → List Attempt → Type 0
IsNewest lease [] = lease.attempt_id ≢ lease.attempt_id
IsNewest lease (a ∷ rest) = is_of_lease lease a ≡ true

IsNewest-live :
    (lease : DeepLease) (now : ℕ) (rest : List Attempt)
    → IsOrdered rest
    → is_live (find (is_of_lease lease) rest) now ≡ true
    → IsNewest lease rest
IsNewest-live lease now [] ord live = ground (arith, live)
IsNewest-live lease now (a ∷ rest) ord live = newest-find (is_of_lease lease) now a rest ord live

same_newest :
    (l m : DeepLease) (rest : List Attempt)
    → IsNewest l rest
    → IsNewest m rest
    → (l.attempt_id ≡ m.attempt_id) × (l.token ≡ m.token)
same_newest l m [] hl hm = ground (arith, hl)
same_newest l m (a ∷ rest) hl hm =
    go a.lease_token (ground (arith, hl)) (ground (arith, hm)) (ground (arith, hl))
      (ground (arith, hm))
  where
    go :
        (t : Option ℕ)
        → equals t l.token ≡ true
        → equals t m.token ≡ true
        → a.id ≡ l.attempt_id
        → a.id ≡ m.attempt_id
        → (l.attempt_id ≡ m.attempt_id) × (l.token ≡ m.token)
    go none hl hm il im = ground (arith, hl)
    go (some t) hl hm il im = (omega (arith, il, im), ground (arith, hl, hm))

-- Every attempt but the newest is idle.
others_idle : (i n : ℕ) (rest : List Attempt) → All (Old n) rest → all (is_idle i) rest ≡ true
others_idle i n [] h = refl
others_idle i n (a ∷ rest) ((less, idle), h) = ground (arith, idle, others_idle i n rest h)

replaced-is_fenced :
    (i : ℕ) (lease : DeepLease) (rest : List Attempt)
    → IsOrdered rest
    → IsNewest lease rest
    → any (λ a. eqb a.id i) rest ≡ true
    → eqb lease.attempt_id i ≡ false
    → is_fenced i rest ≡ true
unfolding is_fenced IsOrdered
replaced-is_fenced i lease [] ord new issued other = ground (arith, issued)
replaced-is_fenced i lease (a ∷ rest) (low, high, old, ord) new issued other =
    let here : is_idle i a ≡ true = ground (arith, new, other) in
    rw (issued, here, others_idle i a.attempt_number rest old) refl

module _ (parse_url : Text → Option Url) (ip : IpLibrary) where
  assert-is_live :
      (db : Database) (lease : DeepLease) (grant : Option DeepGrantIdentity) (now : ℕ)
      → assert_deep_lease parse_url ip db lease grant now ≡ ok tt
      → is_live (find (is_of_lease lease) db.attempts) now ≡ true
  unfolding assert_deep_lease
  assert-is_live db lease grant now h =
      elim (Bool-cases (is_live (find (is_of_lease lease) db.attempts) now)) [
        | inl live ↦ live
        | inr dead ↦ elim (Bool-cases (has_row db lease)) [
          | inl row ↦ elim (Bool-cases (is_deep_running db.scan)) [
            | inl runs ↦ ground (arith, rw (row, runs, dead) at h)
            | inr stopped ↦ ground (arith, rw (row, stopped) at h)
          ]
          | inr lacks ↦ ground (arith, rw lacks at h)
        ]
      ]

  -- Of two leases of which the assertion holds in a state that is reached, whenever the clock is
  -- read and whatever the grants, the attempts and the tokens are the same.
  pub one_holder :
      (s : System) (l m : DeepLease) (g k : Option DeepGrantIdentity) (now then_ : ℕ)
      → Reach parse_url ip s
      → assert_deep_lease parse_url ip s.database l g now ≡ ok tt
      → assert_deep_lease parse_url ip s.database m k then_ ≡ ok tt
      → (l.attempt_id ≡ m.attempt_id) × (l.token ≡ m.token)
  one_holder s l m g k now then_ reached hl hm =
      let ord = (Reach-IsSound parse_url ip reached).ordered in
      let rest = s.database.attempts in
      same_newest l m rest (IsNewest-live l now rest ord (assert-is_live s.database l g now hl))
        (IsNewest-live m then_ rest ord (assert-is_live s.database m k then_ hm))

  void_assert :
      (db : Database) (lease : DeepLease) (grant : Option DeepGrantIdentity) (now : ℕ)
      → is_fenced lease.attempt_id db.attempts ≡ true
      → assert_deep_lease parse_url ip db lease grant now ≡ throw "Deep execution lease unavailable"
  unfolding assert_deep_lease is_fenced
  void_assert db lease grant now f =
      let dead = find-idle lease now db.attempts (ground (arith, f)) in
      elim (Bool-cases (has_row db lease)) [
        | inl row ↦ elim (Bool-cases (is_deep_running db.scan)) [
          | inl runs ↦ rw (row, runs, dead) refl
          | inr stopped ↦ rw (row, stopped) refl
        ]
        | inr lacks ↦ rw lacks refl
      ]

  void_writes :
      (db : Database) (lease : DeepLease) (now : ℕ)
      → is_fenced lease.attempt_id db.attempts ≡ true
      → (renew_row db lease now ≡ throw "Deep execution lease unavailable")
        × (release_deep_lease db lease now ≡ db)
  unfolding renew_row release_deep_lease is_fenced
  void_writes db lease now f =
      let idle : all (is_idle lease.attempt_id) db.attempts ≡ true = ground (arith, f) in
      (
        rw
            (any-idle lease.attempt_id (is_renewable lease now) (λ a i. ground (arith, i))
              db.attempts idle)
            refl,
        rw
            (map-idle lease.attempt_id (is_held lease) (interrupt now) (λ a i. ground (arith, i))
              db.attempts idle)
            refl,
      )

  void_persist :
      (db : Database) (input : Persist) (ended now : ℕ)
      → is_fenced input.lease.attempt_id db.attempts ≡ true
      → write_persist db input ended now ≡ throw "Deep execution lease lost"
  unfolding write_persist is_fenced
  void_persist db input ended now f =
      let idle : all (is_idle input.lease.attempt_id) db.attempts ≡ true = ground (arith, f) in
      rw
        (any-idle input.lease.attempt_id (is_renewable input.lease now) (λ a i. ground (arith, i))
          db.attempts idle)
        refl

  -- Once another lease is asserted in a state that is reached, an attempt that was issued before
  -- is fenced: after any steps, the assertion of its lease, the update of its renewal and the
  -- writes of its results throw, and its release changes nothing.
  pub replaced_lem :
      (s t : System) (new : DeepLease) (input : Persist) (g k : Option DeepGrantIdentity)
      (now ended later : ℕ)
      → Reach parse_url ip s
      → assert_deep_lease parse_url ip s.database new g now ≡ ok tt
      → any (λ a. eqb a.id input.lease.attempt_id) s.database.attempts ≡ true
      → eqb new.attempt_id input.lease.attempt_id ≡ false
      → Steps parse_url ip s t
      → (assert_deep_lease parse_url ip t.database input.lease k later
          ≡ throw "Deep execution lease unavailable")
        × (renew_row t.database input.lease later ≡ throw "Deep execution lease unavailable")
        × (write_persist t.database input ended later ≡ throw "Deep execution lease lost")
        × (release_deep_lease t.database input.lease later ≡ t.database)
  replaced_lem s t new input g k now ended later reached live issued other steps =
      let ord = (Reach-IsSound parse_url ip reached).ordered in
      let newest =
        IsNewest-live new now s.database.attempts ord (assert-is_live s.database new g now live) in
      let i = input.lease.attempt_id in
      let f : is_fenced i t.database.attempts ≡ true =
        Steps-is_fenced parse_url ip i steps
          (replaced-is_fenced i new s.database.attempts ord newest issued other) in
      let writes = void_writes t.database input.lease later f in
      (
        void_assert t.database input.lease k later f,
        writes.0,
        void_persist t.database input ended later f,
        writes.1,
      )
