-- ===== src/Examples/Headers.antt =====
-- A build whose files are the paths that were written, with bindings for every crate.
use aws_nitro_enclaves_nsm_a.Base.{◌≡◌, refl, ◌↔◌, some, List, [], ◌∷◌}
use aws_nitro_enclaves_nsm_a.Build.{PathBuf, Env, Cbindgen, Written, main, main-Written, output_dir}

abbrev cbindgen : Cbindgen (List PathBuf)
cbindgen = record {
  Config = Unit {0};
  Bindings = PathBuf;
  from_root_or_default = λ crate_path files. tt;
  generate = λ crate_path config files. some crate_path;
  write_to_file = λ bindings path files. some (path ∷ files);
}

abbrev env : Env
env name = some ("out" ∷ "nsm-lib-1" ∷ "build" ∷ "release" ∷ "target" ∷ [])

writes_header : main cbindgen env [] ≡ some (("nsm.h" ∷ "release" ∷ "target" ∷ []) ∷ [])
unfolding main output_dir
writes_header = refl

main-Written_example :
    (main cbindgen env [] ≡ some (("nsm.h" ∷ "release" ∷ "target" ∷ []) ∷ []))
    ↔ Written cbindgen env [] (("nsm.h" ∷ "release" ∷ "target" ∷ []) ∷ [])
main-Written_example = main-Written cbindgen env [] (("nsm.h" ∷ "release" ∷ "target" ∷ []) ∷ [])
