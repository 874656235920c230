-- ===== src/Coordinator/Mounts/Detect.antt =====
-- What the answer of `detect_filesystem` says of the mount table.
use yugo.Base.{
  ℕ, zero, suc, ltb, ◌==◌, ◌&&◌, not, ◌≢◌, Bool, subst, ◌≤◌, Text, text_eq, text_eq_iff, ◌≡◌, ◌⊎◌,
  refl, sym, ◌∙◌, true, false, Option, none, some, List, [], ◌∷◌, if◌then◌else◌, arith, Bool-cases,
  Option-cases, inl, inr, keep_where, all_of, length,
}
use yugo.Coordinator.Mounts.{
  Mount, on_device, any_device, longest, is_longest, sole_type, by_device, Best, covers, same_fs,
  better, best_of, by_path, fs_magic, looked_up, detect_filesystem,
}

-- Of the mounts that pass the test none is longer than `n`, and those of that length all have the
-- file system `fs`.
pub AllAgree : (Mount → Bool) → ℕ → Text → List Mount → Type 0
AllAgree test n fs [] = Unit
AllAgree test n fs (m ∷ ms) =
    (test m ≡ true → (length m.point ≤ n) × (length m.point ≡ n → m.fs_type ≡ fs))
    × AllAgree test n fs ms

-- Some mount that passes the test has length `n` and the file system `fs`.
abbrev pub IsAttained : (Mount → Bool) → ℕ → Text → List Mount → Type 0
IsAttained test n fs [] = ⊥
IsAttained test n fs (m ∷ ms) =
    ((test m ≡ true) × (length m.point ≡ n) × (m.fs_type ≡ fs)) ⊎ IsAttained test n fs ms

-- The longest mounts that pass the test, of which there is one at least, all have `fs`.
abbrev pub IsVisible : (Mount → Bool) → Text → List Mount → Type 0
IsVisible test fs table = (n : ℕ) × AllAgree test n fs table × IsAttained test n fs table

IsAttained-keep_where :
    (test : Mount → Bool) (n : ℕ) (fs : Text) (table : List Mount)
    → IsAttained (λ m. true) n fs (keep_where test table)
    → IsAttained test n fs table
unfolding keep_where
IsAttained-keep_where test n fs [] h = h
IsAttained-keep_where test n fs (m ∷ ms) h = elim (Bool-cases (test m)) [
  | inl y ↦ elim (rw y at h) [
    | inl a ↦ inl (y, a.1, a.2)
    | inr later ↦ inr (IsAttained-keep_where test n fs ms later)
  ]
  | inr x ↦ inr (IsAttained-keep_where test n fs ms (rw x at h))
]

sole_type-IsAttained :
    (n : ℕ) (fs : Text) (ms : List Mount)
    → sole_type (keep_where (is_longest n) ms) ≡ some fs
    → IsAttained (λ m. true) n fs ms
unfolding sole_type keep_where
sole_type-IsAttained n fs [] e = cc
sole_type-IsAttained n fs (m ∷ ms) e = elim (Bool-cases (is_longest n m)) [
  | inl y ↦ inl (refl, ground arith, ground (arith, rw y at e))
  | inr x ↦ inr (sole_type-IsAttained n fs ms (rw x at e))
]

AllAgree-keep_where :
    (test : Mount → Bool) (n : ℕ) (fs : Text) (table : List Mount)
    → AllAgree (λ m. true) n fs (keep_where test table)
    → AllAgree test n fs table
unfolding AllAgree keep_where
AllAgree-keep_where test n fs [] h = tt
AllAgree-keep_where test n fs (m ∷ ms) h = elim (Bool-cases (test m)) [
  | inl y ↦ let h' = rw y at h in (λ q. h'.0 refl, AllAgree-keep_where test n fs ms h'.1)
  | inr x ↦ (λ q. cc, AllAgree-keep_where test n fs ms (rw x at h))
]

sole_type-all_of :
    (fs : Text) (ms : List Mount)
    → sole_type ms ≡ some fs
    → all_of (λ k. text_eq k.fs_type fs) ms ≡ true
unfolding sole_type all_of
sole_type-all_of fs [] e = cc
sole_type-all_of fs (m ∷ ms) e = ground (arith, text_eq_iff m.fs_type fs)

all_of-AllAgree :
    (n : ℕ) (fs : Text) (ms : List Mount)
    → longest ms ≤ n
    → all_of (λ k. text_eq k.fs_type fs) (keep_where (is_longest n) ms) ≡ true
    → AllAgree (λ m. true) n fs ms
unfolding AllAgree keep_where longest all_of
all_of-AllAgree n fs [] h e = tt
all_of-AllAgree n fs (m ∷ ms) h e = elim (Bool-cases (is_longest n m)) [
  | inl y ↦
      let e' = rw y at e in
      (
        λ q. (omega arith, λ r. (text_eq_iff m.fs_type fs).0 (ground arith)),
        all_of-AllAgree n fs ms (omega arith) (ground arith),
      )
  | inr x ↦ (
    λ q. (omega arith, λ r. absurd (ground arith)),
    all_of-AllAgree n fs ms (omega arith) (rw x at e),
  )
]

sole_type-AllAgree :
    (n : ℕ) (fs : Text) (ms : List Mount)
    → longest ms ≤ n
    → sole_type (keep_where (is_longest n) ms) ≡ some fs
    → AllAgree (λ m. true) n fs ms
sole_type-AllAgree n fs ms h e =
    all_of-AllAgree n fs ms h (sole_type-all_of fs (keep_where (is_longest n) ms) e)

same_fs_lem : (o : Option Text) (t : Text) → same_fs o t ≡ true → o ≡ some t
same_fs_lem none t h = cc
same_fs_lem (some s) t h = ground (arith, text_eq_iff t s)

-- One round of the loop, by what is known of the rounds that follow.
better_lem :
    (path fs : Text) (m : Mount) (b : Best) (size : ℕ)
    → (better path m b).size ≤ size
    → ((better path m b).size ≡ size
        → ((better path m b).fs ≡ some fs) × ((better path m b).ambiguous ≡ false))
    → (b.size ≤ size)
      × (b.size ≡ size → (b.fs ≡ some fs) × (b.ambiguous ≡ false))
      × ((n : ℕ)
          → suc n ≡ size
          → covers path m ≡ true
          → (length m.point ≤ n) × (length m.point ≡ n → m.fs_type ≡ fs))
unfolding better
better_lem path fs m b size grows keeps = (
  ground arith,
  λ e. ground (arith, same_fs_lem b.fs m.fs_type),
  λ n e c. ground (arith, same_fs_lem b.fs m.fs_type),
)

-- An answer of the loop that is not ambiguous is that of the longest mounts that cover the path.
best_of-AllAgree :
    (path fs : Text) (ms : List Mount) (b : Best)
    → (best_of path ms b).ambiguous ≡ false
    → (best_of path ms b).fs ≡ some fs
    → (b.size ≤ (best_of path ms b).size)
      × (b.size ≡ (best_of path ms b).size → (b.fs ≡ some fs) × (b.ambiguous ≡ false))
      × ((n : ℕ) → suc n ≡ (best_of path ms b).size → AllAgree (covers path) n fs ms)
unfolding AllAgree best_of
best_of-AllAgree path fs [] b a f = (omega arith, λ e. (f, a), λ n e. tt)
best_of-AllAgree path fs (m ∷ ms) b a f =
    let (grows, keeps, rest) = best_of-AllAgree path fs ms (better path m b) a f in
    let r = best_of path ms (better path m b) in
    let step = better_lem path fs m b r.size grows keeps in
    (step.0, step.1, λ n e. (step.2 n e, rest n e))

-- A round leaves size and file system as they are, or takes them from a mount that covers the path.
better-cases :
    (path : Text) (m : Mount) (b : Best)
    → (((better path m b).size ≡ b.size) × ((better path m b).fs ≡ b.fs))
      ⊎ ((covers path m ≡ true)
          × ((better path m b).size ≡ suc (length m.point))
          × ((better path m b).fs ≡ some m.fs_type))
unfolding better
better-cases path m b = elim (Bool-cases (covers path m)) [
  | inr x ↦ inl (rw x (refl, refl))
  | inl c ↦ elim (Bool-cases (ltb b.size (suc (length m.point)))) [
    | inl grows ↦ inr (c, rw (c, grows) refl, rw (c, grows) refl)
    | inr stays ↦
        elim (Bool-cases ((suc (length m.point) == b.size) && not (same_fs b.fs m.fs_type))) [
          | inl y ↦ inl (rw (c, stays, y) (refl, refl))
          | inr n ↦ inl (rw (c, stays, n) (refl, refl))
        ]
  ]
]

-- An answer of the loop that is not its start is that of a mount.
best_of-attains :
    (path : Text) (ms : List Mount) (b : Best)
    → (((best_of path ms b).size ≡ b.size) × ((best_of path ms b).fs ≡ b.fs))
      ⊎ ((n : ℕ) × (fs : Text) × ((best_of path ms b).size ≡ suc n)
          × ((best_of path ms b).fs ≡ some fs)
          × IsAttained (covers path) n fs ms)
unfolding best_of
best_of-attains path [] b = inl (refl, refl)
best_of-attains path (m ∷ ms) b = elim (best_of-attains path ms (better path m b)) [
  | inr (n, fs, s, f, a) ↦ inr (n, fs, s, f, inr a)
  | inl (s, f) ↦ elim (better-cases path m b) [
    | inl (size, kind) ↦ inl (s ∙ size, f ∙ kind)
    | inr (c, size, kind) ↦ inr (length m.point, m.fs_type, s ∙ size, f ∙ kind, inl (c, refl, refl))
  ]
]

best_of-IsAttained :
    (path fs : Text) (table : List Mount) (b : Best) (n : ℕ)
    → (best_of path table b).fs ≡ some fs
    → (best_of path table b).size ≡ suc n
    → b.size ≢ suc n
    → IsAttained (covers path) n fs table
best_of-IsAttained path fs table b n f s ne = elim (best_of-attains path table b) [
  | inl (same, x) ↦ absurd (ne (sym same ∙ s))
  | inr (k, kind, size, answer, a) ↦
      subst (λ t. IsAttained (covers path) n t table) (cc)
        (subst (λ j. IsAttained (covers path) j kind table) (omega arith) a)
]

zero-cases : (n : ℕ) → (n ≡ 0) ⊎ ((m : ℕ) × (n ≡ suc m))
zero-cases zero = inl refl
zero-cases (suc n) = inr (n, refl)

by_path-IsVisible :
    (path fs : Text) (table : List Mount)
    → by_path path table ≡ some fs
    → IsVisible (covers path) fs table
unfolding by_path
by_path-IsVisible path fs table e =
    let b = best_of path table (record { size = 0; fs = none; ambiguous = false }) in
    let (grows, keeps, rest) =
      best_of-AllAgree path fs table (record { size = 0; fs = none; ambiguous = false })
        (ground arith) (ground arith) in
    elim (zero-cases b.size) [
      | inl z ↦ cc ((keeps (sym z)).0)
      | inr (n, s) ↦ (
        n,
        rest n (sym s),
        best_of-IsAttained path fs table (record { size = 0; fs = none; ambiguous = false }) n
            (ground arith) s (omega arith),
      )
    ]

by_device-IsVisible :
    (d fs : Text) (table : List Mount)
    → by_device d table ≡ some fs
    → IsVisible (on_device d) fs table
unfolding by_device
by_device-IsVisible d fs table e =
    let cs = keep_where (on_device d) table in
    (
      longest cs,
      AllAgree-keep_where (on_device d) (longest cs) fs table
          (sole_type-AllAgree (longest cs) fs cs (omega arith) e),
      IsAttained-keep_where (on_device d) (longest cs) fs table
          (sole_type-IsAttained (longest cs) fs cs e),
    )

-- The mounts that decide: those on the target's device, if it is known and the table has
-- devices, and those that cover the target's path if not.
pub decides : Option Text → Text → List Mount → Mount → Bool
decides none path table = covers path
decides (some d) path table = if any_device table then on_device d else covers path

looked_up-IsVisible :
    (device : Option Text) (path fs : Text) (table : List Mount)
    → looked_up device path table ≡ some fs
    → IsVisible (decides device path table) fs table
unfolding looked_up decides
looked_up-IsVisible none path fs table e = by_path-IsVisible path fs table e
looked_up-IsVisible (some d) path fs table e = elim (Bool-cases (any_device table)) [
  | inl y ↦ rw y (by_device-IsVisible d fs table (rw y at e))
  | inr n ↦ rw n (by_path-IsVisible path fs table (rw n at e))
]

-- A file system that is named, and not by the magic number of `statvfs`, is what the mount table
-- says with one voice: there are mounts among those that decide, and the longest of them all have
-- that file system.
pub detect_filesystem-IsVisible :
    (f_type : Option ℕ) (device : Option Text) (path fs : Text) (table : List Mount)
    → detect_filesystem f_type device path table ≡ some fs
    → ((n : ℕ) × (f_type ≡ some n) × (fs_magic n ≡ some fs))
      ⊎ IsVisible (decides device path table) fs table
unfolding detect_filesystem
detect_filesystem-IsVisible none device path fs table e =
    inr (looked_up-IsVisible device path fs table e)
detect_filesystem-IsVisible (some n) device path fs table e = elim (Option-cases (fs_magic n)) [
  | inl x ↦ inr (looked_up-IsVisible device path fs table (rw x at e))
  | inr (s, y) ↦ inl (n, refl, y ∙ rw y at e)
]
