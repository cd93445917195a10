-- ===== src/Package/Body.antt =====
-- `PackageBody` of backend/app/api/routes/packages.py, its validators and `_apply`: what a request may
-- write into a package. A null sent for the name, the arguments or the codes is left out.
use natimai_tiai.Prelude.{
  ℕ, ◌^◌, Bool, true, false, not, ◌&&◌, ◌||◌, Option, none, some, String, List, [], ◌∷◌, all,
  contains, length, string_eq, nat_eq, option_eq, ◌==◌, if◌then◌else◌, ltb, leb, coalesce_to,
}
use natimai_tiai.Prelude.Int.{ℤ, pos, negsuc}
use natimai_tiai.Command.Result.{truthy}
use natimai_tiai.Package.{winget, files, is_winget, Package, msiexec, is_nil}
use natimai_tiai.Package.Names.{codes, valid_file_name, valid_winget_id, valid_winget_version}

-- A field that is not sent is none.
pub record PackageBody : Type 0 where
  pub name : Option String
  pub version : Option (Option String)
  pub notes : Option (Option String)
  pub winget_id : Option (Option String)
  pub winget_version : Option (Option String)
  pub install_run : Option (Option String)
  pub install_args : Option (List String)
  pub uninstall_run : Option (Option String)
  pub uninstall_args : Option (List String)
  pub success_codes : Option (List ℤ)
  pub detect_name : Option (Option String)

-- `_check_args`
pub check_args : List String → Bool
check_args args =
    leb (length args) 64
    && all (λ (a : String). leb (length (codes a)) 1024 && not (contains (codes a) 0)) args

-- `-(2**31) <= c < 2**32`
abbrev in_range : ℤ → Bool
in_range (pos n) = ltb n (2 ^ 32)
in_range (negsuc n) = ltb n (2 ^ 31)

-- `_check_codes`
pub check_codes : List ℤ → Bool
check_codes cs = not (is_nil cs) && (leb (length cs) 32 && all in_range cs)

-- DEFAULT_SUCCESS_CODES
abbrev pub default_success_codes : List ℤ
default_success_codes = pos 0 ∷ pos 3010 ∷ pos 1641 ∷ []

-- A text that is sent, and not null, has at most so many characters.
abbrev within : ℕ → Option (Option String) → Bool
within most (some (some s)) = leb (length (codes s)) most
within most (some none) = true
within most none = true

-- The fields of `PackageBody`, with its validators on the lists of arguments and on the codes
unfoldable pub body_valid : PackageBody → Bool
unfolding check_args check_codes
body_valid b =
    (elim b.name [ none ↦ true | some s ↦ not (s == "") && leb (length (codes s)) 200 ]
      && (within 100 b.version
          && (within 5000 b.notes
              && (within 255 b.install_run
                  && (within 255 b.uninstall_run && within 200 b.detect_name)))))
    && (elim b.install_args [ none ↦ true | some args ↦ check_args args ]
        && (elim b.uninstall_args [ none ↦ true | some args ↦ check_args args ]
            && elim b.success_codes [ none ↦ true | some cs ↦ check_codes cs ]))

-- The fields sent, written, with the strips of `_apply`
unfoldable pub with_fields : (strip : String → String) → PackageBody → Package → Package
with_fields strip b p =
    let stripped : Option (Option String) → Option String → Option String = λ o old. elim o [
      | none ↦ old
      | some none ↦ none
      | some (some s) ↦ if strip s == "" then none else some (strip s)
    ] in
    record p {
      name = elim b.name [ none ↦ p.name | some s ↦ strip s ];
      version = stripped b.version p.version;
      notes = stripped b.notes p.notes;
      winget_id = coalesce_to b.winget_id p.winget_id;
      winget_version = stripped b.winget_version p.winget_version;
      install_run = coalesce_to b.install_run p.install_run;
      install_args = coalesce_to b.install_args p.install_args;
      uninstall_run = stripped b.uninstall_run p.uninstall_run;
      uninstall_args = coalesce_to b.uninstall_args p.uninstall_args;
      success_codes = coalesce_to b.success_codes p.success_codes;
      detect_name = stripped b.detect_name p.detect_name;
    }

-- A column that is set, to a text that fails a test
abbrev set_to_bad : (String → Bool) → Option String → Bool
set_to_bad ok none = false
set_to_bad ok (some s) = not (ok s)

abbrev runs_msiexec : Option String → Bool
runs_msiexec none = false
runs_msiexec (some s) = s == msiexec

-- Whether the checks of `_apply` pass
unfoldable pub coherent : Package → Bool
coherent p = elim p.kind [
  | winget ↦
      (truthy p.winget_id && not (set_to_bad valid_winget_id p.winget_id))
      && (not (truthy p.winget_version && set_to_bad valid_winget_version p.winget_version)
          && not (truthy p.install_run || truthy p.uninstall_run))
  | files ↦
      not (truthy p.winget_id || truthy p.winget_version)
      && (not (set_to_bad (λ s. s == msiexec || valid_file_name s) p.install_run)
          && (not (set_to_bad (λ s. s == msiexec || valid_file_name s) p.uninstall_run)
              && (not (runs_msiexec p.uninstall_run && is_nil p.uninstall_args)
                  && not (runs_msiexec p.install_run && is_nil p.install_args))))
]

-- The last write of `_apply`
abbrev pub detected : Package → Package
detected p =
    if is_winget p.kind
    then record p { detect_name = if truthy p.detect_name then p.detect_name else some p.name }
    else p

-- `_apply`: none where it raises
unfoldable pub apply : (strip : String → String) → PackageBody → Package → Option Package
unfolding with_fields coherent
apply strip b p =
    if coherent (with_fields strip b p) then some (detected (with_fields strip b p)) else none
