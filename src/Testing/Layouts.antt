-- ===== src/Testing/Layouts.antt =====
-- Frames as bytes.
use metaru.Common.{◌+◌, ◌*◌, ◌≡◌, inl, refl, some, [], ◌∷◌, replicate, arith, if◌then◌else◌, ◌==◌}
use metaru.Word.{u64_to_word, word_to_u64}
use metaru.Frame.{Frame}
use metaru.Frame.Memory.{memory_limit, read_bytes}
use metaru.Evm.Ops.{op_mstore, op_mstore8, op_mload}
use metaru.Demo.{Transaction}
use metaru.Layout.{
  Image, store_op, store_byte_op, load_op, reserve, get_code, get_memory, store_byte,
}
use metaru.Layout.Laws.{IsImage}
use metaru.Layout.Store.{Refines, memory_ops-Refine, offset_of}
use metaru.Layout.Overlap.{frame_image, store_byte-get_code}
use metaru.Testing.{context_of, frame_of}

-- Code of three bytes, of which the second is the byte that an access at 1025 reaches.
abbrev adding : Transaction
adding = record {
  origin = replicate 20 1;
  target = replicate 20 2;
  value = u64_to_word 0;
  payload = 0x60 ∷ 5 ∷ 0 ∷ [];
  gas_limit = 50;
  gas_price = u64_to_word 1;
}

store_byte-get_code_example :
    let reserved = reserve 1025 1 (frame_image adding) in
    (reserved.0 ≡ some tt)
    × (reserved.1.bytes (get_code (frame_image adding) + 1) ≡ 0)
    × (get_memory (frame_image adding) 1025 ≡ get_code (frame_image adding) + 1)
    × ((store_byte 1025 7 reserved.1).bytes (get_code (frame_image adding) + 1) ≡ 7)
store_byte-get_code_example = store_byte-get_code adding 1 7 (omega arith)

-- Two items on the stack: 7, and on top the offset 0.
abbrev wide_image : Image
wide_image = record {
  stack_size = 2;
  memory_size = 0;
  code_size = 3;
  output_size = 0;
  return_data_size = 0;
  stack_ptr = 384;
  memory_ptr = 33152;
  code_ptr = 33152 + memory_limit;
  input_ptr = 0;
  output_ptr = 0;
  return_data_ptr = 0;
  bytes = λ k. if k == 415 then 7 else 0;
}

abbrev viewed : Frame
viewed = record (frame_of (0 ∷ 0 ∷ 0 ∷ []) 100) {
  stack_size = 2;
  stack = λ i. read_bytes wide_image.bytes (384 + i * 32) 32;
  context = record (context_of (0 ∷ 0 ∷ 0 ∷ [])) { code = λ _. 0 };
}

wide_image-IsImage : IsImage memory_limit wide_image viewed
wide_image-IsImage = record {
  laid_out = record {
    stack_memory = inl (omega arith);
    stack_code = inl (omega arith);
    memory_code = inl (omega arith);
  };
  items = refl;
  extent = refl;
  code_bytes = refl;
  stack = λ i h. refl;
  memory = λ i h. ground arith;
  code = λ i h. ground arith;
}

offset_zero : offset_of viewed ≡ 0
unfolding word_to_u64 read_bytes
offset_zero = refl

memory_ops-Refine_example :
    Refines memory_limit (store_op wide_image) (op_mstore viewed)
    × Refines memory_limit (store_byte_op wide_image) (op_mstore8 viewed)
    × Refines memory_limit (load_op wide_image) (op_mload viewed)
memory_ops-Refine_example =
    memory_ops-Refine memory_limit wide_image viewed (omega arith) (omega arith) (omega arith)
      (omega (arith, offset_zero)) wide_image-IsImage
