-- ===== src/DeepLease/Fence.antt =====
-- A lease that another has replaced can do nothing any more.
use webprobe.Base.{
  ℕ, ◌≡◌, refl, inl, inr, Bool, true, false, Option, List, [], ◌∷◌, map, any, all, find, arith,
  Bool-cases,
}
use webprobe.Base.Text.{Text, text_key}
use webprobe.Security.Urls.{Url, IpLibrary}
use webprobe.DeepLease.Rows.{Attempt, Database, DeepLease, is_running, change, is_of_lease}
use webprobe.DeepLease.Claims.{Reading, new_attempt, release_deep_lease}
use webprobe.DeepLease.Checks.{is_live}
use webprobe.DeepLease.Steps.{
  System, Step, begin, commit, roll_back, renew, release, persist, fail, fence, reconcile,
  elsewhere, Steps, stay, then_step,
}
use webprobe.DeepLease.Attempts.{is_fenced, is_idle, is_fenced-map}
use webprobe.DeepLease.Newest.{fresh-is_fenced}
use webprobe.DeepLease.Writes.{
  IsWrite, take_over-IsWrite, renew_deep_lease-IsWrite, persist_deep_check_runs-IsWrite,
  release_deep_lease-IsWrite, record_deep_failure-IsWrite,
}
use webprobe.DeepLease.Endings.{record_deep_failure}
use webprobe.DeepLease.Safety.{IsClaim, write_claim-ok}
use webprobe.DeepLease.Outside.{fence_running_deep_attempts, reconcile_stale_deep_scan}
use webprobe.DeepLease.Outside.Writes.{fence-IsWrite, reconcile-IsWrite}

-- A test that only running attempts of this id pass.
abbrev pub FindsOwn : ℕ → (Attempt → Bool) → Type 0
FindsOwn i p = (a : Attempt) → is_idle i a ≡ true → p a ≡ false

pub any-idle :
    (i : ℕ) (p : Attempt → Bool)
    → FindsOwn i p
    → (rest : List Attempt) → all (is_idle i) rest ≡ true
    → any p rest ≡ false
any-idle i p finds [] h = refl
any-idle i p finds (a ∷ rest) h =
    rw (finds a (ground (arith, h)), any-idle i p finds rest (ground (arith, h)))

pub map-idle :
    (i : ℕ) (p : Attempt → Bool) (set : Attempt → Attempt)
    → FindsOwn i p
    → (rest : List Attempt) → all (is_idle i) rest ≡ true
    → map (change p set) rest ≡ rest
map-idle i p set finds [] h = refl
map-idle i p set finds (a ∷ rest) h =
    rw (finds a (ground (arith, h)), map-idle i p set finds rest (ground (arith, h)))

pub find-idle :
    (lease : DeepLease) (now : ℕ) (rest : List Attempt)
    → all (is_idle lease.attempt_id) rest ≡ true
    → is_live (find (is_of_lease lease) rest) now ≡ false
find-idle lease now [] h = refl
find-idle lease now (a ∷ rest) h = elim (Bool-cases (is_of_lease lease a)) [
  | inl hit ↦ let idle : is_running a.status ≡ false = ground (arith, h, hit) in rw (hit, idle)
  | inr miss ↦ rw (miss, find-idle lease now rest (ground (arith, h)))
]

write-is_fenced :
    (i : ℕ) (db after : Database)
    → IsWrite db after
    → is_fenced i db.attempts ≡ true
    → is_fenced i after.attempts ≡ true
unfolding IsWrite
write-is_fenced i db after (f, tame, does) h = rw does (is_fenced-map f tame i db.attempts h)

commit-is_fenced :
    (i : ℕ) (db after : Database) (r : Reading) (later id token : ℕ)
    → IsClaim db after r later id token
    → is_fenced i db.attempts ≡ true
    → is_fenced i after.attempts ≡ true
unfolding is_fenced
commit-is_fenced i db after r later id token c h =
    let write = take_over-IsWrite db c.expired r.now later r.latest_attempt c.took_over in
    let old = write-is_fenced i db c.expired write h in
    let other =
      fresh-is_fenced i (new_attempt r id token) c.expired.attempts c.free (ground (arith, old)) in
    rw c.inserted (ground (arith, old, other))

module _ (parse_url : Text → Option Url) (ip : IpLibrary) (i : ℕ) where
  Step-is_fenced :
      {s t : System}
      → Step parse_url ip s t
      → is_fenced i s.database.attempts ≡ true
      → is_fenced i t.database.attempts ≡ true
  Step-is_fenced (begin {db} {input} {r} now h) f = f
  Step-is_fenced (commit {db} {after} {input} {r} later id token lease h) f =
      commit-is_fenced i db after r later id token
        (write_claim-ok db after input r later id token lease h) f
  Step-is_fenced (roll_back {db} {claim}) f = f
  Step-is_fenced (renew {db} {after} {claim} seen lease grant now later h) f =
      write-is_fenced i db after
        (renew_deep_lease-IsWrite parse_url ip seen db after lease grant now later h) f
  Step-is_fenced (release {db} {claim} lease now) f =
      write-is_fenced i db (release_deep_lease db lease now)
        (release_deep_lease-IsWrite db lease now) f
  Step-is_fenced (persist {db} {after} {claim} seen input clock ended later h) f =
      write-is_fenced i db after
        (persist_deep_check_runs-IsWrite parse_url ip seen db after input clock ended later h) f
  Step-is_fenced (fail {db} {claim} lease code terminal now) f =
      write-is_fenced i db (record_deep_failure db lease code terminal now)
        (record_deep_failure-IsWrite db lease code terminal now) f
  Step-is_fenced (fence {db} {claim} site_id now) f =
      write-is_fenced i db (fence_running_deep_attempts db site_id now)
        (fence-IsWrite db site_id now) f
  Step-is_fenced (reconcile {db} {claim} scan_id inspection now closed ended) f =
      write-is_fenced i db (reconcile_stale_deep_scan db scan_id inspection now closed ended).1
        (reconcile-IsWrite db scan_id inspection now closed ended) f
  Step-is_fenced (elsewhere {db} {claim} other) f = f

  pub Steps-is_fenced :
      {s t : System}
      → Steps parse_url ip s t
      → is_fenced i s.database.attempts ≡ true
      → is_fenced i t.database.attempts ≡ true
  Steps-is_fenced stay f = f
  Steps-is_fenced (then_step ss st) f = Step-is_fenced st (Steps-is_fenced ss f)
