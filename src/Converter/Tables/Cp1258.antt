-- ===== src/Converter/Tables/Cp1258.antt =====
-- A table of src/core/engine/CodeTableConverter.cpp. Vietnamese locale, code page 1258.
use nexus_key.Base.{ℕ, List, [], ◌∷◌}

abbrev pub cp1258_map : List (ℕ × ℕ)
cp1258_map =
    (0xC2, 0xC2)
    ∷ (0xE2, 0xE2)
    ∷ (0x102, 0xC3)
    ∷ (0x103, 0xE3)
    ∷ (0xC1, 0xEC41)
    ∷ (0xE1, 0xEC61)
    ∷ (0xC0, 0xCC41)
    ∷ (0xE0, 0xCC61)
    ∷ (0x1EA2, 0xD241)
    ∷ (0x1EA3, 0xD261)
    ∷ (0xC3, 0xDE41)
    ∷ (0xE3, 0xDE61)
    ∷ (0x1EA0, 0xF241)
    ∷ (0x1EA1, 0xF261)
    ∷ (0xD4, 0xD4)
    ∷ (0xF4, 0xF4)
    ∷ (0x1A0, 0xD5)
    ∷ (0x1A1, 0xF5)
    ∷ (0xD3, 0xEC4F)
    ∷ (0xF3, 0xEC6F)
    ∷ (0xD2, 0xCC4F)
    ∷ (0xF2, 0xCC6F)
    ∷ (0x1ECE, 0xD24F)
    ∷ (0x1ECF, 0xD26F)
    ∷ (0xD5, 0xDE4F)
    ∷ (0xF5, 0xDE6F)
    ∷ (0x1ECC, 0xF24F)
    ∷ (0x1ECD, 0xF26F)
    ∷ (0x1AF, 0xDD)
    ∷ (0x1B0, 0xFD)
    ∷ (0xDA, 0xEC55)
    ∷ (0xFA, 0xEC75)
    ∷ (0xD9, 0xCC55)
    ∷ (0xF9, 0xCC75)
    ∷ (0x1EE6, 0xD255)
    ∷ (0x1EE7, 0xD275)
    ∷ (0x168, 0xDE55)
    ∷ (0x169, 0xDE75)
    ∷ (0x1EE4, 0xF255)
    ∷ (0x1EE5, 0xF275)
    ∷ (0xCA, 0xCA)
    ∷ (0xEA, 0xEA)
    ∷ (0xC9, 0xEC45)
    ∷ (0xE9, 0xEC65)
    ∷ (0xC8, 0xCC45)
    ∷ (0xE8, 0xCC65)
    ∷ (0x1EBA, 0xD245)
    ∷ (0x1EBB, 0xD265)
    ∷ (0x1EBC, 0xDE45)
    ∷ (0x1EBD, 0xDE65)
    ∷ (0x1EB8, 0xF245)
    ∷ (0x1EB9, 0xF265)
    ∷ (0x110, 0xD0)
    ∷ (0x111, 0xF0)
    ∷ (0x1EA4, 0xECC2)
    ∷ (0x1EA5, 0xECE2)
    ∷ (0x1EA6, 0xCCC2)
    ∷ (0x1EA7, 0xCCE2)
    ∷ (0x1EA8, 0xD2C2)
    ∷ (0x1EA9, 0xD2E2)
    ∷ (0x1EAA, 0xDEC2)
    ∷ (0x1EAB, 0xDEE2)
    ∷ (0x1EAC, 0xF2C2)
    ∷ (0x1EAD, 0xF2E2)
    ∷ (0x1EAE, 0xECC3)
    ∷ (0x1EAF, 0xECE3)
    ∷ (0x1EB0, 0xCCC3)
    ∷ (0x1EB1, 0xCCE3)
    ∷ (0x1EB2, 0xD2C3)
    ∷ (0x1EB3, 0xD2E3)
    ∷ (0x1EB4, 0xDEC3)
    ∷ (0x1EB5, 0xDEE3)
    ∷ (0x1EB6, 0xF2C3)
    ∷ (0x1EB7, 0xF2E3)
    ∷ (0x1ED0, 0xECD4)
    ∷ (0x1ED1, 0xECF4)
    ∷ (0x1ED2, 0xCCD4)
    ∷ (0x1ED3, 0xCCF4)
    ∷ (0x1ED4, 0xD2D4)
    ∷ (0x1ED5, 0xD2F4)
    ∷ (0x1ED6, 0xDED4)
    ∷ (0x1ED7, 0xDEF4)
    ∷ (0x1ED8, 0xF2D4)
    ∷ (0x1ED9, 0xF2F4)
    ∷ (0x1EDA, 0xECD5)
    ∷ (0x1EDB, 0xECF5)
    ∷ (0x1EDC, 0xCCD5)
    ∷ (0x1EDD, 0xCCF5)
    ∷ (0x1EDE, 0xD2D5)
    ∷ (0x1EDF, 0xD2F5)
    ∷ (0x1EE0, 0xDED5)
    ∷ (0x1EE1, 0xDEF5)
    ∷ (0x1EE2, 0xF2D5)
    ∷ (0x1EE3, 0xF2F5)
    ∷ (0x1EE8, 0xECDD)
    ∷ (0x1EE9, 0xECFD)
    ∷ (0x1EEA, 0xCCDD)
    ∷ (0x1EEB, 0xCCFD)
    ∷ (0x1EEC, 0xD2DD)
    ∷ (0x1EED, 0xD2FD)
    ∷ (0x1EEE, 0xDEDD)
    ∷ (0x1EEF, 0xDEFD)
    ∷ (0x1EF0, 0xF2DD)
    ∷ (0x1EF1, 0xF2FD)
    ∷ (0x1EBE, 0xECCA)
    ∷ (0x1EBF, 0xECEA)
    ∷ (0x1EC0, 0xCCCA)
    ∷ (0x1EC1, 0xCCEA)
    ∷ (0x1EC2, 0xD2CA)
    ∷ (0x1EC3, 0xD2EA)
    ∷ (0x1EC4, 0xDECA)
    ∷ (0x1EC5, 0xDEEA)
    ∷ (0x1EC6, 0xF2CA)
    ∷ (0x1EC7, 0xF2EA)
    ∷ (0xCD, 0xEC49)
    ∷ (0xED, 0xEC69)
    ∷ (0xCC, 0xCC49)
    ∷ (0xEC, 0xCC69)
    ∷ (0x1EC8, 0xD249)
    ∷ (0x1EC9, 0xD269)
    ∷ (0x128, 0xDE49)
    ∷ (0x129, 0xDE69)
    ∷ (0x1ECA, 0xF249)
    ∷ (0x1ECB, 0xF269)
    ∷ (0xDD, 0xEC59)
    ∷ (0xFD, 0xEC79)
    ∷ (0x1EF2, 0xCC59)
    ∷ (0x1EF3, 0xCC79)
    ∷ (0x1EF6, 0xD259)
    ∷ (0x1EF7, 0xD279)
    ∷ (0x1EF8, 0xDE59)
    ∷ (0x1EF9, 0xDE79)
    ∷ (0x1EF4, 0xF259)
    ∷ (0x1EF5, 0xF279)
    ∷ []
