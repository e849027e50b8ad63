-- ===== src/Persistence/File/Default.antt =====
-- config.rs and persistence.rs: the state file that a configuration has by default.
use mathlib.Core.Option
use cryptosweep.Base.{
  ◌≡◌, refl, sym, ap, ◌∙◌, subst, String, none, some, true, false, string_eq, nat_eq,
}
use cryptosweep.Base.FilePath.{
  EndsInName, join, is_blank, trim_end, is_file_name, file_stem, before_last,
}
use cryptosweep.Base.FilePath.Laws.{IsName, join-EndsInName, with_extension-join}
use cryptosweep.Base.Text.{lacks}
use cryptosweep.Config.{CryptoSweepConfig, TomlConfig, with_defaults}
use cryptosweep.Persistence.File.{temp_path}

state_json-IsName : IsName "state.json"
unfolding lacks is_blank trim_end is_file_name string_eq nat_eq
state_json-IsName = record {
  named = refl;
  single = refl;
  solid = λ behind. elim behind as (λ b. is_blank b "state.json" ≡ false) [
    | true ↦ refl
    | false ↦ refl
  ];
  whole = refl;
}

abbrev directory : String → String
directory home = join home ".cryptosweep"

temp_path-join :
    (home : String)
    → temp_path (join (directory home) "state.json") ≡ join (directory home) "state.json.tmp"
unfolding file_stem before_last lacks nat_eq
temp_path-join home = with_extension-join "json.tmp" (directory home) "state.json" state_json-IsName

-- A configuration whose file names no state file keeps its state under the user's home directory, in
-- a path that ends in a file's name; a save writes its temporary file in the same directory, so
-- that the rename does not leave it.
pub with_defaults-EndsInName :
    {D : Type 0} (home : String) (t : TomlConfig D) (c : CryptoSweepConfig D)
    → t.state_file ≡ none
    → with_defaults (some home) t ≡ some c
    → (c.state_file ≡ join (join home ".cryptosweep") "state.json")
      × EndsInName c.state_file
      × (temp_path c.state_file ≡ join (join home ".cryptosweep") "state.json.tmp")
with_defaults-EndsInName home t c lacking fills =
    let files = ap (Option.map (λ (x : CryptoSweepConfig _). x.state_file)) (rw lacking at fills) in
    let is : c.state_file ≡ join (directory home) "state.json" = cc in
    (
      is,
      subst EndsInName (sym is) (join-EndsInName (directory home) "state.json" state_json-IsName),
      ap temp_path is ∙ temp_path-join home,
    )
