-- ===== src/Provenance/Text.antt =====
-- The texts that internal/modules/provenance/c2pa.go looks for, in ASCII.
use market_place.Prelude.{[], ◌∷◌}
use market_place.Bytes.{Bytes}

-- "c2pa.claim"
abbrev pub c2pa_claim : Bytes
c2pa_claim = 99 ∷ 50 ∷ 112 ∷ 97 ∷ 46 ∷ 99 ∷ 108 ∷ 97 ∷ 105 ∷ 109 ∷ []

-- "claim"
abbrev pub claim : Bytes
claim = 99 ∷ 108 ∷ 97 ∷ 105 ∷ 109 ∷ []

-- "c2pa.signature"
abbrev pub c2pa_signature : Bytes
c2pa_signature = 99 ∷ 50 ∷ 112 ∷ 97 ∷ 46 ∷ 115 ∷ 105 ∷ 103 ∷ 110 ∷ 97 ∷ 116 ∷ 117 ∷ 114 ∷ 101 ∷ []

-- "claim_signature"
abbrev pub claim_signature : Bytes
claim_signature =
    99 ∷ 108 ∷ 97 ∷ 105 ∷ 109 ∷ 95 ∷ 115 ∷ 105 ∷ 103 ∷ 110 ∷ 97 ∷ 116 ∷ 117 ∷ 114 ∷ 101 ∷ []

-- "signature"
abbrev pub signature : Bytes
signature = 115 ∷ 105 ∷ 103 ∷ 110 ∷ 97 ∷ 116 ∷ 117 ∷ 114 ∷ 101 ∷ []

-- "Signature1"
abbrev pub signature1 : Bytes
signature1 = 83 ∷ 105 ∷ 103 ∷ 110 ∷ 97 ∷ 116 ∷ 117 ∷ 114 ∷ 101 ∷ 49 ∷ []

-- "assertions"
abbrev pub assertions : Bytes
assertions = 97 ∷ 115 ∷ 115 ∷ 101 ∷ 114 ∷ 116 ∷ 105 ∷ 111 ∷ 110 ∷ 115 ∷ []

-- "created_assertions"
abbrev pub created_assertions : Bytes
created_assertions =
    99 ∷ 114 ∷ 101 ∷ 97 ∷ 116 ∷ 101 ∷ 100 ∷ 95 ∷ 97 ∷ 115 ∷ 115 ∷ 101 ∷ 114 ∷ 116 ∷ 105 ∷ 111 ∷ 110
    ∷ 115 ∷ []

-- "url"
abbrev pub url : Bytes
url = 117 ∷ 114 ∷ 108 ∷ []

-- "hash"
abbrev pub hash : Bytes
hash = 104 ∷ 97 ∷ 115 ∷ 104 ∷ []

-- "c2pa.hash.data"
abbrev pub hash_data : Bytes
hash_data = 99 ∷ 50 ∷ 112 ∷ 97 ∷ 46 ∷ 104 ∷ 97 ∷ 115 ∷ 104 ∷ 46 ∷ 100 ∷ 97 ∷ 116 ∷ 97 ∷ []

-- "c2pa.hash.boxes"
abbrev pub hash_boxes : Bytes
hash_boxes = 99 ∷ 50 ∷ 112 ∷ 97 ∷ 46 ∷ 104 ∷ 97 ∷ 115 ∷ 104 ∷ 46 ∷ 98 ∷ 111 ∷ 120 ∷ 101 ∷ 115 ∷ []

-- "claim_generator"
abbrev pub claim_generator : Bytes
claim_generator =
    99 ∷ 108 ∷ 97 ∷ 105 ∷ 109 ∷ 95 ∷ 103 ∷ 101 ∷ 110 ∷ 101 ∷ 114 ∷ 97 ∷ 116 ∷ 111 ∷ 114 ∷ []

-- "claim_generator_info"
abbrev pub claim_generator_info : Bytes
claim_generator_info =
    99 ∷ 108 ∷ 97 ∷ 105 ∷ 109 ∷ 95 ∷ 103 ∷ 101 ∷ 110 ∷ 101 ∷ 114 ∷ 97 ∷ 116 ∷ 111 ∷ 114 ∷ 95 ∷ 105
    ∷ 110 ∷ 102 ∷ 111 ∷ []

-- "name"
abbrev pub name : Bytes
name = 110 ∷ 97 ∷ 109 ∷ 101 ∷ []
