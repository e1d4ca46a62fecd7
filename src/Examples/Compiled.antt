-- ===== src/Examples/Compiled.antt =====
-- A graph that is written as MLIR, compiled and loaded.
use fusilli.Base.{
  ◌+◌, ◌≡◌, refl, [], ◌++◌, some, none, false, pos, Text, codes, Outcome, ok, at, int64, ◌*ℤ◌,
  for_range, put, iota, decimal_ℤ, if◌then◌else◌, Option,
}
use fusilli.Tensor.Types.{is_set}
use fusilli.Tensor.Order.{insert_by}
use fusilli.Tensor.Physical.{get_physical_dim}
use fusilli.Support.Disk.{Disk, store}
use fusilli.Support.Cache.{CachedAssets}
use fusilli.Graph.Artifact.{Environment, output_filename}
use fusilli.Graph.Artifact.Laws.{cached_path}
use fusilli.Graph.Runtime.{RuntimeState, cleared, input_list_capacity, count_outputs, count_inputs}
use fusilli.Graph.Runtime.Laws.{IsLoadedFor}
use fusilli.Graph.Compile.{compile}
use fusilli.Graph.Compile.Laws.{compile_lem}
use fusilli.Emit.Assembly.{Printer, emit_asm}
use fusilli.Emit.Assembly.Laws.{Declares, emit_asm-Declares}
use fusilli.Emit.Program.Percent.{percent, count}
use fusilli.Node.Store.{deref}
use fusilli.Examples.Graphs.{validated}
use fusilli.Examples.Targets.{empty_disk}
use fusilli.Examples.Loaded.{iree, handle}
use fusilli.Examples.Cached.{env}

abbrev printer : Printer
printer = record { float_asm = λ n. []; torch_type = λ t. pos 0 }

-- A compiler that writes an artifact.
abbrev compiling : Environment
compiling = record (env 0) {
  system = λ line d. (
    0,
    store (cached_path (env 0) (codes validated.context.name) output_filename) (codes "vmfb") d,
  );
}

abbrev run : Outcome (Unit {0}) × Disk × Option CachedAssets × RuntimeState
run = compile printer compiling iree validated handle none false empty_disk cleared

abbrev program : Text
program =
    codes "\nmodule @module {\n  \n"
    ++ codes "  func.func @main(%mm_C_: !torch.tensor<[2,4],f32>, %a: "
    ++ codes "!torch.vtensor<[2,3],f32>, %b: !torch.vtensor<[3,4],f32>) attributes "
    ++ codes "{torch.assume_strict_symbolic_shapes} {\n  \n"
    ++ codes "    %permute_A_val_0_mm = torch.constant.int 0\n"
    ++ codes "    %permute_A_val_1_mm = torch.constant.int 1\n"
    ++ codes "    %permute_A_mm = torch.prim.ListConstruct %permute_A_val_0_mm, "
    ++ codes "%permute_A_val_1_mm : (!torch.int, !torch.int) -> !torch.list<int>\n\n"
    ++ codes "    %a_mm_perm = torch.aten.permute %a, %permute_A_mm : "
    ++ codes "!torch.vtensor<[2,3],f32>, !torch.list<int> -> !torch.vtensor<[2,3],f32>\n"
    ++ codes "  \n    %permute_B_val_0_mm = torch.constant.int 0\n"
    ++ codes "    %permute_B_val_1_mm = torch.constant.int 1\n"
    ++ codes "    %permute_B_mm = torch.prim.ListConstruct %permute_B_val_0_mm, "
    ++ codes "%permute_B_val_1_mm : (!torch.int, !torch.int) -> !torch.list<int>\n\n"
    ++ codes "    %b_mm_perm = torch.aten.permute %b, %permute_B_mm : "
    ++ codes "!torch.vtensor<[3,4],f32>, !torch.list<int> -> !torch.vtensor<[3,4],f32>\n"
    ++ codes "  \n"
    ++ codes "    %mm_C_mm_perm = torch.aten.matmul %a_mm_perm, %b_mm_perm : "
    ++ codes "!torch.vtensor<[2,3],f32>, !torch.vtensor<[3,4],f32> -> "
    ++ codes "!torch.vtensor<[2,4],f32>\n"
    ++ codes "    %permute_C_val_0_mm = torch.constant.int 0\n"
    ++ codes "    %permute_C_val_1_mm = torch.constant.int 1\n"
    ++ codes "    %permute_C_mm = torch.prim.ListConstruct %permute_C_val_0_mm, "
    ++ codes "%permute_C_val_1_mm : (!torch.int, !torch.int) -> !torch.list<int>\n\n"
    ++ codes "    %mm_C = torch.aten.permute %mm_C_mm_perm, %permute_C_mm : "
    ++ codes "!torch.vtensor<[2,4],f32>, !torch.list<int> -> !torch.vtensor<[2,4],f32>\n"
    ++ codes "  \n  \n"
    ++ codes "    torch.overwrite.tensor.contents %mm_C overwrites %mm_C_ : "
    ++ codes "!torch.vtensor<[2,4],f32>, !torch.tensor<[2,4],f32>\n\n    return\n  }\n"
    ++ codes "}\n  "

written : emit_asm printer validated ≡ ok program
unfolding emit_asm at is_set get_physical_dim insert_by int64 ◌*ℤ◌ for_range put iota decimal_ℤ
written = refl

counted : input_list_capacity validated false ≡ ok 4
unfolding input_list_capacity count_outputs count_inputs at deref
counted = refl

emit_asm-Declares_example :
    (results : Text) × (operands : Text) × Declares results operands program
    × (count percent results + count percent operands + 1 + (if false then 2 else 0) ≡ 4)
emit_asm-Declares_example = emit_asm-Declares printer validated false program 4 written counted

succeeds : run ≡ (ok tt, run.1, run.2, run.3)
unfolding compile at is_set get_physical_dim insert_by int64 ◌*ℤ◌ for_range put iota
succeeds = refl

compile_example :
    (asm : Text) × (assets : CachedAssets) × (bytes : Text) × (emit_asm printer validated ≡ ok asm)
    × (run.2 ≡ some assets)
    × (run.1.content assets.output.path ≡ some bytes)
    × IsLoadedFor validated handle.backend bytes run.3
compile_example =
    compile_lem printer compiling iree validated handle none run.2 false empty_disk run.1 cleared
      run.3 succeeds
