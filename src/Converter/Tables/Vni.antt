-- ===== src/Converter/Tables/Vni.antt =====
-- A table of src/core/engine/CodeTableConverter.cpp. VNI Windows: the low byte comes first.
use nexus_key.Base.{ℕ, List, [], ◌∷◌}

abbrev pub vni_map : List (ℕ × ℕ)
vni_map =
    (0xC2, 0xC241)
    ∷ (0xE2, 0xE261)
    ∷ (0x102, 0xCA41)
    ∷ (0x103, 0xEA61)
    ∷ (0xC1, 0xD941)
    ∷ (0xE1, 0xF961)
    ∷ (0xC0, 0xD841)
    ∷ (0xE0, 0xF861)
    ∷ (0x1EA2, 0xDB41)
    ∷ (0x1EA3, 0xFB61)
    ∷ (0xC3, 0xD541)
    ∷ (0xE3, 0xF561)
    ∷ (0x1EA0, 0xCF41)
    ∷ (0x1EA1, 0xEF61)
    ∷ (0xD4, 0xC24F)
    ∷ (0xF4, 0xE26F)
    ∷ (0x1A0, 0xD4)
    ∷ (0x1A1, 0xF4)
    ∷ (0xD3, 0xD94F)
    ∷ (0xF3, 0xF96F)
    ∷ (0xD2, 0xD84F)
    ∷ (0xF2, 0xF86F)
    ∷ (0x1ECE, 0xDB4F)
    ∷ (0x1ECF, 0xFB6F)
    ∷ (0xD5, 0xD54F)
    ∷ (0xF5, 0xF56F)
    ∷ (0x1ECC, 0xCF4F)
    ∷ (0x1ECD, 0xEF6F)
    ∷ (0x1AF, 0xD6)
    ∷ (0x1B0, 0xF6)
    ∷ (0xDA, 0xD955)
    ∷ (0xFA, 0xF975)
    ∷ (0xD9, 0xD855)
    ∷ (0xF9, 0xF875)
    ∷ (0x1EE6, 0xDB55)
    ∷ (0x1EE7, 0xFB75)
    ∷ (0x168, 0xD555)
    ∷ (0x169, 0xF575)
    ∷ (0x1EE4, 0xCF55)
    ∷ (0x1EE5, 0xEF75)
    ∷ (0xCA, 0xC245)
    ∷ (0xEA, 0xE265)
    ∷ (0xC9, 0xD945)
    ∷ (0xE9, 0xF965)
    ∷ (0xC8, 0xD845)
    ∷ (0xE8, 0xF865)
    ∷ (0x1EBA, 0xDB45)
    ∷ (0x1EBB, 0xFB65)
    ∷ (0x1EBC, 0xD545)
    ∷ (0x1EBD, 0xF565)
    ∷ (0x1EB8, 0xCF45)
    ∷ (0x1EB9, 0xEF65)
    ∷ (0x110, 0xD1)
    ∷ (0x111, 0xF1)
    ∷ (0x1EA4, 0xC141)
    ∷ (0x1EA5, 0xE161)
    ∷ (0x1EA6, 0xC041)
    ∷ (0x1EA7, 0xE061)
    ∷ (0x1EA8, 0xC541)
    ∷ (0x1EA9, 0xE561)
    ∷ (0x1EAA, 0xC341)
    ∷ (0x1EAB, 0xE361)
    ∷ (0x1EAC, 0xC441)
    ∷ (0x1EAD, 0xE461)
    ∷ (0x1EAE, 0xC941)
    ∷ (0x1EAF, 0xE961)
    ∷ (0x1EB0, 0xC841)
    ∷ (0x1EB1, 0xE861)
    ∷ (0x1EB2, 0xDA41)
    ∷ (0x1EB3, 0xFA61)
    ∷ (0x1EB4, 0xDC41)
    ∷ (0x1EB5, 0xFC61)
    ∷ (0x1EB6, 0xCB41)
    ∷ (0x1EB7, 0xEB61)
    ∷ (0x1ED0, 0xC14F)
    ∷ (0x1ED1, 0xE16F)
    ∷ (0x1ED2, 0xC04F)
    ∷ (0x1ED3, 0xE06F)
    ∷ (0x1ED4, 0xC54F)
    ∷ (0x1ED5, 0xE56F)
    ∷ (0x1ED6, 0xC34F)
    ∷ (0x1ED7, 0xE36F)
    ∷ (0x1ED8, 0xC44F)
    ∷ (0x1ED9, 0xE46F)
    ∷ (0x1EDA, 0xD9D4)
    ∷ (0x1EDB, 0xF9F4)
    ∷ (0x1EDC, 0xD8D4)
    ∷ (0x1EDD, 0xF8F4)
    ∷ (0x1EDE, 0xDBD4)
    ∷ (0x1EDF, 0xFBF4)
    ∷ (0x1EE0, 0xD5D4)
    ∷ (0x1EE1, 0xF5F4)
    ∷ (0x1EE2, 0xCFD4)
    ∷ (0x1EE3, 0xEFF4)
    ∷ (0x1EE8, 0xD9D6)
    ∷ (0x1EE9, 0xF9F6)
    ∷ (0x1EEA, 0xD8D6)
    ∷ (0x1EEB, 0xF8F6)
    ∷ (0x1EEC, 0xDBD6)
    ∷ (0x1EED, 0xFBF6)
    ∷ (0x1EEE, 0xD5D6)
    ∷ (0x1EEF, 0xF5F6)
    ∷ (0x1EF0, 0xCFD6)
    ∷ (0x1EF1, 0xEFF6)
    ∷ (0x1EBE, 0xC145)
    ∷ (0x1EBF, 0xE165)
    ∷ (0x1EC0, 0xC045)
    ∷ (0x1EC1, 0xE065)
    ∷ (0x1EC2, 0xC545)
    ∷ (0x1EC3, 0xE565)
    ∷ (0x1EC4, 0xC345)
    ∷ (0x1EC5, 0xE365)
    ∷ (0x1EC6, 0xC445)
    ∷ (0x1EC7, 0xE465)
    ∷ (0xCD, 0xCD)
    ∷ (0xED, 0xED)
    ∷ (0xCC, 0xCC)
    ∷ (0xEC, 0xEC)
    ∷ (0x1EC8, 0xC6)
    ∷ (0x1EC9, 0xE6)
    ∷ (0x128, 0xD3)
    ∷ (0x129, 0xF3)
    ∷ (0x1ECA, 0xD2)
    ∷ (0x1ECB, 0xF2)
    ∷ (0xDD, 0xD959)
    ∷ (0xFD, 0xF979)
    ∷ (0x1EF2, 0xD859)
    ∷ (0x1EF3, 0xF879)
    ∷ (0x1EF6, 0xDB59)
    ∷ (0x1EF7, 0xFB79)
    ∷ (0x1EF8, 0xD559)
    ∷ (0x1EF9, 0xF579)
    ∷ (0x1EF4, 0xCE)
    ∷ (0x1EF5, 0xEE)
    ∷ []
