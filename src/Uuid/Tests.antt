-- ===== src/Uuid/Tests.antt =====
-- The text of an identifier of src/EFUUID.c.
use emex_foundation.Base.{◌≡◌, arith, length, get_or}
use emex_foundation.Uuid.{UuidBytes, fill_text}
use emex_foundation.Uuid.Text.{read_text, AreBytes, read_text-fill_text}

abbrev sample : UuidBytes
sample = record {
  byte0 = 18;
  byte1 = 255;
  byte2 = 0;
  byte3 = 160;
  byte4 = 1;
  byte5 = 2;
  byte6 = 3;
  byte7 = 4;
  byte8 = 5;
  byte9 = 6;
  byte10 = 7;
  byte11 = 8;
  byte12 = 9;
  byte13 = 10;
  byte14 = 11;
  byte15 = 12;
}

abbrev sample-AreBytes : AreBytes sample
sample-AreBytes = record {
  small0 = omega arith;
  small1 = omega arith;
  small2 = omega arith;
  small3 = omega arith;
  small4 = omega arith;
  small5 = omega arith;
  small6 = omega arith;
  small7 = omega arith;
  small8 = omega arith;
  small9 = omega arith;
  small10 = omega arith;
  small11 = omega arith;
  small12 = omega arith;
  small13 = omega arith;
  small14 = omega arith;
  small15 = omega arith;
}

read_text-fill_text_example :
    (read_text (fill_text sample) ≡ sample)
    × (length (fill_text sample) ≡ 37)
    × (get_or (fill_text sample) 8 0 ≡ 45)
    × (get_or (fill_text sample) 13 0 ≡ 45)
    × (get_or (fill_text sample) 18 0 ≡ 45)
    × (get_or (fill_text sample) 23 0 ≡ 45)
    × (get_or (fill_text sample) 36 1 ≡ 0)
read_text-fill_text_example = read_text-fill_text sample sample-AreBytes
