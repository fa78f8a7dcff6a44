-- ===== src/Converter/Tables/Compound.antt =====
-- A table of src/core/engine/CodeTableConverter.cpp. Unicode Compound: the high byte has the combining mark in its three upper bits.
use nexus_key.Base.{ℕ, List, [], ◌∷◌}

abbrev pub unicode_compound_map : List (ℕ × ℕ)
unicode_compound_map =
    (0xC2, 0xC2)
    ∷ (0xE2, 0xE2)
    ∷ (0x102, 0x102)
    ∷ (0x103, 0x103)
    ∷ (0xC1, 0x2041)
    ∷ (0xE1, 0x2061)
    ∷ (0xC0, 0x4041)
    ∷ (0xE0, 0x4061)
    ∷ (0x1EA2, 0x6041)
    ∷ (0x1EA3, 0x6061)
    ∷ (0xC3, 0x8041)
    ∷ (0xE3, 0x8061)
    ∷ (0x1EA0, 0xA041)
    ∷ (0x1EA1, 0xA061)
    ∷ (0xD4, 0xD4)
    ∷ (0xF4, 0xF4)
    ∷ (0x1A0, 0x1A0)
    ∷ (0x1A1, 0x1A1)
    ∷ (0xD3, 0x204F)
    ∷ (0xF3, 0x206F)
    ∷ (0xD2, 0x404F)
    ∷ (0xF2, 0x406F)
    ∷ (0x1ECE, 0x604F)
    ∷ (0x1ECF, 0x606F)
    ∷ (0xD5, 0x804F)
    ∷ (0xF5, 0x806F)
    ∷ (0x1ECC, 0xA04F)
    ∷ (0x1ECD, 0xA06F)
    ∷ (0x1AF, 0x1AF)
    ∷ (0x1B0, 0x1B0)
    ∷ (0xDA, 0x2055)
    ∷ (0xFA, 0x2075)
    ∷ (0xD9, 0x4055)
    ∷ (0xF9, 0x4075)
    ∷ (0x1EE6, 0x6055)
    ∷ (0x1EE7, 0x6075)
    ∷ (0x168, 0x8055)
    ∷ (0x169, 0x8075)
    ∷ (0x1EE4, 0xA055)
    ∷ (0x1EE5, 0xA075)
    ∷ (0xCA, 0xCA)
    ∷ (0xEA, 0xEA)
    ∷ (0xC9, 0x2045)
    ∷ (0xE9, 0x2065)
    ∷ (0xC8, 0x4045)
    ∷ (0xE8, 0x4065)
    ∷ (0x1EBA, 0x6045)
    ∷ (0x1EBB, 0x6065)
    ∷ (0x1EBC, 0x8045)
    ∷ (0x1EBD, 0x8065)
    ∷ (0x1EB8, 0xA045)
    ∷ (0x1EB9, 0xA065)
    ∷ (0x110, 0x110)
    ∷ (0x111, 0x111)
    ∷ (0x1EA4, 0x20C2)
    ∷ (0x1EA5, 0x20E2)
    ∷ (0x1EA6, 0x40C2)
    ∷ (0x1EA7, 0x40E2)
    ∷ (0x1EA8, 0x60C2)
    ∷ (0x1EA9, 0x60E2)
    ∷ (0x1EAA, 0x80C2)
    ∷ (0x1EAB, 0x80E2)
    ∷ (0x1EAC, 0xA0C2)
    ∷ (0x1EAD, 0xA0E2)
    ∷ (0x1EAE, 0x2102)
    ∷ (0x1EAF, 0x2103)
    ∷ (0x1EB0, 0x4102)
    ∷ (0x1EB1, 0x4103)
    ∷ (0x1EB2, 0x6102)
    ∷ (0x1EB3, 0x6103)
    ∷ (0x1EB4, 0x8102)
    ∷ (0x1EB5, 0x8103)
    ∷ (0x1EB6, 0xA102)
    ∷ (0x1EB7, 0xA103)
    ∷ (0x1ED0, 0x20D4)
    ∷ (0x1ED1, 0x20F4)
    ∷ (0x1ED2, 0x40D4)
    ∷ (0x1ED3, 0x40F4)
    ∷ (0x1ED4, 0x60D4)
    ∷ (0x1ED5, 0x60F4)
    ∷ (0x1ED6, 0x80D4)
    ∷ (0x1ED7, 0x80F4)
    ∷ (0x1ED8, 0xA0D4)
    ∷ (0x1ED9, 0xA0F4)
    ∷ (0x1EDA, 0x21A0)
    ∷ (0x1EDB, 0x21A1)
    ∷ (0x1EDC, 0x41A0)
    ∷ (0x1EDD, 0x41A1)
    ∷ (0x1EDE, 0x61A0)
    ∷ (0x1EDF, 0x61A1)
    ∷ (0x1EE0, 0x81A0)
    ∷ (0x1EE1, 0x81A1)
    ∷ (0x1EE2, 0xA1A0)
    ∷ (0x1EE3, 0xA1A1)
    ∷ (0x1EE8, 0x21AF)
    ∷ (0x1EE9, 0x21B0)
    ∷ (0x1EEA, 0x41AF)
    ∷ (0x1EEB, 0x41B0)
    ∷ (0x1EEC, 0x61AF)
    ∷ (0x1EED, 0x61B0)
    ∷ (0x1EEE, 0x81AF)
    ∷ (0x1EEF, 0x81B0)
    ∷ (0x1EF0, 0xA1AF)
    ∷ (0x1EF1, 0xA1B0)
    ∷ (0x1EBE, 0x20CA)
    ∷ (0x1EBF, 0x20EA)
    ∷ (0x1EC0, 0x40CA)
    ∷ (0x1EC1, 0x40EA)
    ∷ (0x1EC2, 0x60CA)
    ∷ (0x1EC3, 0x60EA)
    ∷ (0x1EC4, 0x80CA)
    ∷ (0x1EC5, 0x80EA)
    ∷ (0x1EC6, 0xA0CA)
    ∷ (0x1EC7, 0xA0EA)
    ∷ (0xCD, 0x2049)
    ∷ (0xED, 0x2069)
    ∷ (0xCC, 0x4049)
    ∷ (0xEC, 0x4069)
    ∷ (0x1EC8, 0x6049)
    ∷ (0x1EC9, 0x6069)
    ∷ (0x128, 0x8049)
    ∷ (0x129, 0x8069)
    ∷ (0x1ECA, 0xA049)
    ∷ (0x1ECB, 0xA069)
    ∷ (0xDD, 0x2059)
    ∷ (0xFD, 0x2079)
    ∷ (0x1EF2, 0x4059)
    ∷ (0x1EF3, 0x4079)
    ∷ (0x1EF6, 0x6059)
    ∷ (0x1EF7, 0x6079)
    ∷ (0x1EF8, 0x8059)
    ∷ (0x1EF9, 0x8079)
    ∷ (0x1EF4, 0xA059)
    ∷ (0x1EF5, 0xA079)
    ∷ []
