-- ===== src/Bytestream/Builtin.antt =====
-- The codecs of the built-in types.
use nuhal.Common.{ℕ, ◌^◌, ◌<◌, refl, ℤ, IsI32, of_i32}
use nuhal.Bytestream.{
  inject_u8, extract_u8, inject_u16, extract_u16, inject_u32, extract_u32, inject_i32, extract_i32,
  inject_f, extract_f,
}
use nuhal.Bytestream.Codec.{Codec}
use nuhal.Bytestream.Integers.{
  be8, be16, be32, inject_u8-Injects, inject_u16-Injects, inject_u32-Injects, inject_i32-Injects,
  inject_f-Injects,
}
use nuhal.Bytestream.Decode.{
  decode_u8, decode_u16, decode_u32, decode_i32, extract_u8-Extracts, extract_u16-Extracts,
  extract_u32-Extracts, extract_i32-Extracts, extract_f-Extracts, decode_u8-be8, decode_u16-be16,
  decode_u32-be32, decode_i32-be32,
}

abbrev pub u8_codec : Codec ℕ
u8_codec = record {
  inject = λ v bs. inject_u8 bs v;
  extract = extract_u8;
  IsValue = λ v. v < 2 ^ 8;
  width = 1;
  encode = be8;
  decode = decode_u8;
  injects = λ v _. inject_u8-Injects v;
  extracts = extract_u8-Extracts;
  length-encode = λ v. refl;
  decode-encode = λ m i v _. decode_u8-be8 m i v;
}

abbrev pub u16_codec : Codec ℕ
u16_codec = record {
  inject = λ v bs. inject_u16 bs v;
  extract = extract_u16;
  IsValue = λ v. v < 2 ^ 16;
  width = 2;
  encode = be16;
  decode = decode_u16;
  injects = λ v _. inject_u16-Injects v;
  extracts = extract_u16-Extracts;
  length-encode = λ v. refl;
  decode-encode = decode_u16-be16;
}

abbrev pub u32_codec : Codec ℕ
u32_codec = record {
  inject = λ v bs. inject_u32 bs v;
  extract = extract_u32;
  IsValue = λ v. v < 2 ^ 32;
  width = 4;
  encode = be32;
  decode = decode_u32;
  injects = inject_u32-Injects;
  extracts = extract_u32-Extracts;
  length-encode = λ v. refl;
  decode-encode = decode_u32-be32;
}

abbrev pub i32_codec : Codec ℤ
i32_codec = record {
  inject = λ z bs. inject_i32 bs z;
  extract = extract_i32;
  IsValue = IsI32;
  width = 4;
  encode = λ z. be32 (of_i32 z);
  decode = decode_i32;
  injects = λ z _. inject_i32-Injects z;
  extracts = extract_i32-Extracts;
  length-encode = λ z. refl;
  decode-encode = decode_i32-be32;
}

-- A float travels as its bit pattern.
abbrev pub f_codec : Codec ℕ
f_codec = record {
  inject = λ v bs. inject_f bs v;
  extract = extract_f;
  IsValue = λ v. v < 2 ^ 32;
  width = 4;
  encode = be32;
  decode = decode_u32;
  injects = inject_f-Injects;
  extracts = extract_f-Extracts;
  length-encode = λ v. refl;
  decode-encode = decode_u32-be32;
}
