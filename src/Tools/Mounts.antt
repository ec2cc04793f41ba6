-- ===== src/Tools/Mounts.antt =====
-- The disks that crates/system-tools/src/lib.rs shows.
use saaios.Prelude.{
  ◌≤◌, ◌≡◌, String, false, List, [], ◌∷◌, All, length, ltb, one_of, str_eq, Bool-cases, inl, inr,
  arith,
}
use saaios.Crates.{Crates}
use saaios.Tools.Proc.{words}
use saaios.Tools.Sys.{column}
use saaios.Tools.Sys.Disk.{mount_rows}

module _ (C : Crates) where
  abbrev path_of : List String → String
  path_of cols = column C cols 5

  -- Each row has its six columns, and no path comes twice.
  abbrev pub AreMounts : List (List String) → Type 0
  AreMounts [] = Unit
  AreMounts (cols ∷ rows) =
      (6 ≤ length cols)
      × All (λ other. str_eq (path_of other) (path_of cols) ≡ false) rows
      × AreMounts rows

  -- A path that was seen comes no more.
  unseen :
      (lines : List String) (seen : List String)
      → All (λ cols. one_of (path_of cols) seen ≡ false) (mount_rows C seen lines)
  unfolding mount_rows
  unseen [] seen = tt
  unseen (line ∷ rest) seen =
      let cols = words C line in
      elim (Bool-cases (ltb (length cols) 6)) [
        | inl e ↦ rw e (unseen rest seen)
        | inr e ↦ elim (Bool-cases (one_of (path_of cols) seen)) [
          | inl f ↦ rw (e, f) (unseen rest seen)
          | inr f ↦
              rw (e, f)
                (
                  f,
                  weaken (path_of cols) seen (mount_rows C (path_of cols ∷ seen) rest)
                      (unseen rest (path_of cols ∷ seen)),
                )
        ]
      ]
    where
      weaken :
          (path : String) (old : List String) (rows : List (List String))
          → All (λ cols. one_of (path_of cols) (path ∷ old) ≡ false) rows
          → All (λ cols. one_of (path_of cols) old ≡ false) rows
      weaken path old [] h = tt
      weaken path old (cols ∷ rows) (q, h) = (ground arith, weaken path old rows h)

  others :
      (path : String) (old : List String) (rows : List (List String))
      → All (λ cols. one_of (path_of cols) (path ∷ old) ≡ false) rows
      → All (λ cols. str_eq (path_of cols) path ≡ false) rows
  others path old [] h = tt
  others path old (cols ∷ rows) (q, h) = (ground arith, others path old rows h)

  -- Whatever `df` prints, and also where it prints a disk for several of the paths that it was asked for,
  -- the rows that are shown have their six columns, and no path is shown twice.
  pub mount_rows-AreMounts :
      (lines : List String) (seen : List String) → AreMounts (mount_rows C seen lines)
  unfolding mount_rows
  mount_rows-AreMounts [] seen = tt
  mount_rows-AreMounts (line ∷ rest) seen =
      let cols = words C line in
      elim (Bool-cases (ltb (length cols) 6)) [
        | inl e ↦ rw e (mount_rows-AreMounts rest seen)
        | inr e ↦ elim (Bool-cases (one_of (path_of cols) seen)) [
          | inl f ↦ rw (e, f) (mount_rows-AreMounts rest seen)
          | inr f ↦
              rw (e, f)
                (
                  ground arith,
                  others (path_of cols) seen _ (unseen rest (path_of cols ∷ seen)),
                  mount_rows-AreMounts rest (path_of cols ∷ seen),
                )
        ]
      ]
