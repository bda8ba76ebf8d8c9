-- ===== src/Build.antt =====
-- nsm-lib/build.rs: where the C header of the library is written. cbindgen and the environment of
-- the build are parameters.
use Prim.Native.String.{String}
use aws_nitro_enclaves_nsm_a.Base.{
  ◌≡◌, refl, ap, ◌∙◌, inl, inr, Option, none, some, Option-cases, List, [], ◌∷◌, get_elem?, ◌↔◌,
}

-- A path by its components, the last first: the parent is the tail.
abbrev pub PathBuf : Type 0
PathBuf = List String

-- `Path::ancestors`: the path, its parent, and so on.
abbrev ancestors : PathBuf → List PathBuf
ancestors [] = [] ∷ []
ancestors (c ∷ p) = (c ∷ p) ∷ ancestors p

-- The variables of the environment that are set.
abbrev pub Env : Type 0
Env = String → Option PathBuf

-- `dir.ancestors().nth(3).unwrap()`; no OUT_DIR, or too short a path, is a panic.
unfoldable pub output_dir : Env → Option PathBuf
output_dir env = elim (env "OUT_DIR") [ none ↦ none | some dir ↦ get_elem? (ancestors dir) 3 ]

-- What is used of cbindgen, over the files `K`: a configuration is read, the bindings of a crate are
-- generated or are not, and are written to a file or are not.
pub record Cbindgen (K : Type 0) : Type 1 where
  pub Config : Type 0
  pub Bindings : Type 0
  pub from_root_or_default : PathBuf → K → Config
  pub generate : PathBuf → Config → K → Option Bindings
  pub write_to_file : Bindings → PathBuf → K → Option K

above-cases :
    (p dir : PathBuf)
    → get_elem? (ancestors p) 3 ≡ some dir
    → (out unit build : String) × (p ≡ out ∷ unit ∷ build ∷ dir)
above-cases [] dir e = absurd cc
above-cases (_ ∷ []) dir e = absurd cc
above-cases (_ ∷ _ ∷ []) dir e = absurd cc
above-cases (o ∷ u ∷ b ∷ []) dir e = (o, u, b, cc)
above-cases (o ∷ u ∷ b ∷ x ∷ p) dir e = (o, u, b, cc)

ancestors-above :
    (out unit build : String) (dir : PathBuf)
    → get_elem? (ancestors (out ∷ unit ∷ build ∷ dir)) 3 ≡ some dir
ancestors-above out unit build [] = refl
ancestors-above out unit build (x ∷ dir) = refl

module _ {K : Type 0} (c : Cbindgen K) where
  -- `none` is a panic: the build fails.
  unfoldable pub main : Env → K → Option K
  main env files = elim (env "CARGO_MANIFEST_DIR") [
    | none ↦ none
    | some crate_path ↦
        let config = c.from_root_or_default crate_path files in
        elim (output_dir env) [
          | none ↦ none
          | some out_path ↦ elim (c.generate crate_path config files) [
            | none ↦ none
            | some bindings ↦ c.write_to_file bindings ("nsm.h" ∷ out_path) files
          ]
        ]
  ]

  -- The build has read both variables, generated the bindings of the crate and written them three
  -- directories above OUT_DIR.
  pub record Written (env : Env) (files files' : K) : Type 0 where
    pub crate_path : PathBuf
    pub out : String
    pub unit : String
    pub build : String
    pub profile_dir : PathBuf
    pub bindings : c.Bindings
    pub at_crate : env "CARGO_MANIFEST_DIR" ≡ some crate_path
    pub at_out : env "OUT_DIR" ≡ some (out ∷ unit ∷ build ∷ profile_dir)
    pub generated :
        c.generate crate_path (c.from_root_or_default crate_path files) files ≡ some bindings
    pub wrote : c.write_to_file bindings ("nsm.h" ∷ profile_dir) files ≡ some files'

  main-write_to_file :
      (env : Env) (files files' : K) → Written env files files' → main env files ≡ some files'
  unfolding main output_dir
  main-write_to_file env files files' w =
      rw
        (
          w.at_crate,
          w.at_out,
          ancestors-above w.out w.unit w.build w.profile_dir,
          w.generated,
          main,
          output_dir,
        )
        w.wrote

  main-writes :
      (env : Env) (files files' : K) → main env files ≡ some files' → Written env files files'
  unfolding main output_dir
  main-writes env files files' e = elim (Option-cases (env "CARGO_MANIFEST_DIR")) [
    | inl no_crate ↦ absurd (let h = rw (no_crate, main) at e in cc)
    | inr (crate_path, at_crate) ↦ elim (Option-cases (env "OUT_DIR")) [
      | inl no_out ↦ absurd (let h = rw (at_crate, no_out, main, output_dir) at e in cc)
      | inr (path, at_path) ↦ elim (Option-cases (get_elem? (ancestors path) 3)) [
        | inl short ↦ absurd (let h = rw (at_crate, at_path, short, main, output_dir) at e in cc)
        | inr (dir, above) ↦
            let (out, unit, build, parts) = above-cases path dir above in
            elim (Option-cases
              (c.generate crate_path (c.from_root_or_default crate_path files) files)) [
                | inl failed ↦
                    absurd
                      (let h = rw (at_crate, at_path, above, failed, main, output_dir) at e in cc)
                | inr (bindings, generated) ↦ record {
                  crate_path = crate_path;
                  out = out;
                  unit = unit;
                  build = build;
                  profile_dir = dir;
                  bindings = bindings;
                  at_crate = at_crate;
                  at_out = at_path ∙ ap some parts;
                  generated = generated;
                  wrote = rw (at_crate, at_path, above, generated, main, output_dir) at e;
                }
              ]
      ]
    ]
  ]

  -- The build script ends without a panic, with the files that it leaves, exactly where both
  -- environment variables are set, OUT_DIR has at least three components, cbindgen generates the
  -- bindings of the crate by its configuration, and nsm.h is written with them into the directory
  -- three above OUT_DIR.
  pub main-Written :
      (env : Env) (files files' : K) → (main env files ≡ some files') ↔ Written env files files'
  main-Written env files files' =
      (main-writes env files files', main-write_to_file env files files')
