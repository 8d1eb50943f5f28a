-- ===== src/Manager/Single/Reloaded.antt =====
-- What each unit is after the unit files have been read again (`reload_units` of
-- src/manager/mod_impl/part3.rs).
use sysd.Prelude.{
  String, ◌≡◌, refl, true, false, Option, none, some, get, or_else, string_eq, Bool-cases,
  Option-cases, inl, inr,
}
use sysd.Deps.StartOrder.{ends_with}
use sysd.Units.Kinds.{AnyUnit}
use sysd.Manager.{Manager, ManagerError, Result, ok, err}
use sysd.Manager.Load.{Disk, Reading, whole, broken, find_unit, parse_reading, parse_unit_file}
use sysd.Manager.Single.Reload.{parsed, found, reread, reload_units, get-reload_units}

-- The unit under a name after the reload, by what the manager had and what the disk holds.
pub data Reloaded (d : Disk) (m : Manager) (n : String) : Option AnyUnit → Type 0 where
  not_loaded : get m.units n ≡ none → Reloaded d m n none
  scope :
      (old : AnyUnit)
      → get m.units n ≡ some old
      → ends_with n ".scope" ≡ true
      → Reloaded d m n (some old)
  no_file :
      (old : AnyUnit) (e : ManagerError)
      → get m.units n ≡ some old
      → ends_with n ".scope" ≡ false
      → find_unit d m n ≡ err e
      → Reloaded d m n (some old)
  not_parsed :
      (old : AnyUnit) (path text : String)
      → get m.units n ≡ some old
      → ends_with n ".scope" ≡ false
      → find_unit d m n ≡ ok path
      → d.load_unit path ≡ broken text
      → Reloaded d m n (some old)
  replaced :
      (old new : AnyUnit) (path : String)
      → get m.units n ≡ some old
      → ends_with n ".scope" ≡ false
      → find_unit d m n ≡ ok path
      → d.load_unit path ≡ whole new
      → Reloaded d m n (some new)

module _ (d : Disk) (m : Manager) (n : String) (old : AnyUnit) (h : get m.units n ≡ some old)
    (k : ends_with n ".scope" ≡ false) where
  by_reading :
      (path : String) (r : Reading)
      → find_unit d m n ≡ ok path
      → d.load_unit path ≡ r
      → Reloaded d m n (or_else (parsed (parse_reading r)) (some old))
  by_reading path (whole new) f q = replaced old new path h k f q
  by_reading path (broken text) f q = not_parsed old path text h k f q

  by_file :
      (r : Result String) → find_unit d m n ≡ r → Reloaded d m n (or_else (found d r) (some old))
  unfolding parse_unit_file
  by_file (err e) f = no_file old e h k f
  by_file (ok path) f = by_reading path (d.load_unit path) f refl

by_name :
    (d : Disk) (m : Manager) (n : String) (old : AnyUnit)
    → get m.units n ≡ some old
    → Reloaded d m n (or_else (reread d m n) (some old))
unfolding reread
by_name d m n old h = elim (Bool-cases (ends_with n ".scope")) [
  | inl k ↦ rw k (scope old h k)
  | inr k ↦ rw k (by_file d m n old h k (find_unit d m n) refl)
]

-- A reload changes the units only. A unit that was not loaded is not loaded after it, and a scope is
-- what it was. Any other unit is the one that its file, found by its name, holds now; it is what
-- it was when no file is found, or when the file that is found cannot be parsed.
pub reload_units-Reloaded :
    (d : Disk) (m : Manager)
    → ((reload_units d m).1 ≡ record m { units = (reload_units d m).1.units })
      × ((n : String) → Reloaded d m n (get (reload_units d m).1.units n))
unfolding reload_units
reload_units-Reloaded d m = (
  refl,
  λ n. elim (Option-cases (get m.units n)) [
    | inl h ↦ rw (get-reload_units d m n, h) (not_loaded h)
    | inr (old, h) ↦ rw (get-reload_units d m n, h) (by_name d m n old h)
  ],
)
