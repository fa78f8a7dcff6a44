-- ===== src/Converter/Tables/Tcvn3.antt =====
-- A table of src/core/engine/CodeTableConverter.cpp. TCVN3, one unit for each letter; a capital with a tone shares the unit of its small letter.
use nexus_key.Base.{ℕ, List, [], ◌∷◌}

abbrev pub tcvn3_map : List (ℕ × ℕ)
tcvn3_map =
    (0xC2, 0xA2)
    ∷ (0xE2, 0xA9)
    ∷ (0x102, 0xA1)
    ∷ (0x103, 0xA8)
    ∷ (0xC1, 0xB8)
    ∷ (0xE1, 0xB8)
    ∷ (0xC0, 0xB5)
    ∷ (0xE0, 0xB5)
    ∷ (0x1EA2, 0xB6)
    ∷ (0x1EA3, 0xB6)
    ∷ (0xC3, 0xB7)
    ∷ (0xE3, 0xB7)
    ∷ (0x1EA0, 0xB9)
    ∷ (0x1EA1, 0xB9)
    ∷ (0xD4, 0xA4)
    ∷ (0xF4, 0xAB)
    ∷ (0x1A0, 0xA5)
    ∷ (0x1A1, 0xAC)
    ∷ (0xD3, 0xE3)
    ∷ (0xF3, 0xE3)
    ∷ (0xD2, 0xDF)
    ∷ (0xF2, 0xDF)
    ∷ (0x1ECE, 0xE1)
    ∷ (0x1ECF, 0xE1)
    ∷ (0xD5, 0xE2)
    ∷ (0xF5, 0xE2)
    ∷ (0x1ECC, 0xE4)
    ∷ (0x1ECD, 0xE4)
    ∷ (0x1AF, 0xA6)
    ∷ (0x1B0, 0xAD)
    ∷ (0xDA, 0xF3)
    ∷ (0xFA, 0xF3)
    ∷ (0xD9, 0xEF)
    ∷ (0xF9, 0xEF)
    ∷ (0x1EE6, 0xF1)
    ∷ (0x1EE7, 0xF1)
    ∷ (0x168, 0xF2)
    ∷ (0x169, 0xF2)
    ∷ (0x1EE4, 0xF4)
    ∷ (0x1EE5, 0xF4)
    ∷ (0xCA, 0xA3)
    ∷ (0xEA, 0xAA)
    ∷ (0xC9, 0xD0)
    ∷ (0xE9, 0xD0)
    ∷ (0xC8, 0xCC)
    ∷ (0xE8, 0xCC)
    ∷ (0x1EBA, 0xCE)
    ∷ (0x1EBB, 0xCE)
    ∷ (0x1EBC, 0xCF)
    ∷ (0x1EBD, 0xCF)
    ∷ (0x1EB8, 0xD1)
    ∷ (0x1EB9, 0xD1)
    ∷ (0x110, 0xA7)
    ∷ (0x111, 0xAE)
    ∷ (0x1EA4, 0xCA)
    ∷ (0x1EA5, 0xCA)
    ∷ (0x1EA6, 0xC7)
    ∷ (0x1EA7, 0xC7)
    ∷ (0x1EA8, 0xC8)
    ∷ (0x1EA9, 0xC8)
    ∷ (0x1EAA, 0xC9)
    ∷ (0x1EAB, 0xC9)
    ∷ (0x1EAC, 0xCB)
    ∷ (0x1EAD, 0xCB)
    ∷ (0x1EAE, 0xBE)
    ∷ (0x1EAF, 0xBE)
    ∷ (0x1EB0, 0xBB)
    ∷ (0x1EB1, 0xBB)
    ∷ (0x1EB2, 0xBC)
    ∷ (0x1EB3, 0xBC)
    ∷ (0x1EB4, 0xBD)
    ∷ (0x1EB5, 0xBD)
    ∷ (0x1EB6, 0xC6)
    ∷ (0x1EB7, 0xC6)
    ∷ (0x1ED0, 0xE8)
    ∷ (0x1ED1, 0xE8)
    ∷ (0x1ED2, 0xE5)
    ∷ (0x1ED3, 0xE5)
    ∷ (0x1ED4, 0xE6)
    ∷ (0x1ED5, 0xE6)
    ∷ (0x1ED6, 0xE7)
    ∷ (0x1ED7, 0xE7)
    ∷ (0x1ED8, 0xE9)
    ∷ (0x1ED9, 0xE9)
    ∷ (0x1EDA, 0xED)
    ∷ (0x1EDB, 0xED)
    ∷ (0x1EDC, 0xEA)
    ∷ (0x1EDD, 0xEA)
    ∷ (0x1EDE, 0xEB)
    ∷ (0x1EDF, 0xEB)
    ∷ (0x1EE0, 0xEC)
    ∷ (0x1EE1, 0xEC)
    ∷ (0x1EE2, 0xEE)
    ∷ (0x1EE3, 0xEE)
    ∷ (0x1EE8, 0xF8)
    ∷ (0x1EE9, 0xF8)
    ∷ (0x1EEA, 0xF5)
    ∷ (0x1EEB, 0xF5)
    ∷ (0x1EEC, 0xF6)
    ∷ (0x1EED, 0xF6)
    ∷ (0x1EEE, 0xF7)
    ∷ (0x1EEF, 0xF7)
    ∷ (0x1EF0, 0xF9)
    ∷ (0x1EF1, 0xF9)
    ∷ (0x1EBE, 0xD5)
    ∷ (0x1EBF, 0xD5)
    ∷ (0x1EC0, 0xD2)
    ∷ (0x1EC1, 0xD2)
    ∷ (0x1EC2, 0xD3)
    ∷ (0x1EC3, 0xD3)
    ∷ (0x1EC4, 0xD4)
    ∷ (0x1EC5, 0xD4)
    ∷ (0x1EC6, 0xD6)
    ∷ (0x1EC7, 0xD6)
    ∷ (0xCD, 0xDD)
    ∷ (0xED, 0xDD)
    ∷ (0xCC, 0xD7)
    ∷ (0xEC, 0xD7)
    ∷ (0x1EC8, 0xD8)
    ∷ (0x1EC9, 0xD8)
    ∷ (0x128, 0xDC)
    ∷ (0x129, 0xDC)
    ∷ (0x1ECA, 0xDE)
    ∷ (0x1ECB, 0xDE)
    ∷ (0xDD, 0xFD)
    ∷ (0xFD, 0xFD)
    ∷ (0x1EF2, 0xFA)
    ∷ (0x1EF3, 0xFA)
    ∷ (0x1EF6, 0xFB)
    ∷ (0x1EF7, 0xFB)
    ∷ (0x1EF8, 0xFC)
    ∷ (0x1EF9, 0xFC)
    ∷ (0x1EF4, 0xFE)
    ∷ (0x1EF5, 0xFE)
    ∷ []
