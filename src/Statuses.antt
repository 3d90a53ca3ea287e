-- ===== src/Statuses.antt =====
-- The table `statusy` of jab_simul/jab_simul-repeater.c, byte by byte.
use jab_simul.Shared.{List, [], ◌∷◌, Text, codes}

abbrev pub statuses : List (Text × Text)
statuses =
    (68 ∷ 111 ∷ 115 ∷ 116 ∷ 195 ∷ 170 ∷ 112 ∷ 110 ∷ 121 ∷ [], codes "chat")
    ∷ (
      67 ∷ 104 ∷ 99 ∷ 195 ∷ 170 ∷ 32 ∷ 112 ∷ 111 ∷ 103 ∷ 97 ∷ 100 ∷ 97 ∷ 195 ∷ 166 ∷ [],
      codes "chat",
    )
    ∷ (
      83 ∷ 122 ∷ 117 ∷ 107 ∷ 97 ∷ 109 ∷ 32 ∷ 112 ∷ 114 ∷ 122 ∷ 121 ∷ 106 ∷ 97 ∷ 99 ∷ 105 ∷ 195 ∷ 179
          ∷ 194 ∷ 179 ∷ [],
      codes "chat",
    )
    ∷ (
      83 ∷ 122 ∷ 117 ∷ 107 ∷ 97 ∷ 109 ∷ 32 ∷ 122 ∷ 110 ∷ 97 ∷ 106 ∷ 111 ∷ 109 ∷ 121 ∷ 99 ∷ 104 ∷ [],
      codes "chat",
    )
    ∷ (
      83 ∷ 122 ∷ 117 ∷ 107 ∷ 97 ∷ 109 ∷ 32 ∷ 100 ∷ 122 ∷ 105 ∷ 101 ∷ 119 ∷ 99 ∷ 122 ∷ 121 ∷ 110
          ∷ 121 ∷ [],
      codes "chat",
    )
    ∷ (83 ∷ 122 ∷ 117 ∷ 107 ∷ 97 ∷ 109 ∷ 32 ∷ 102 ∷ 97 ∷ 99 ∷ 101 ∷ 116 ∷ 97 ∷ [], codes "chat")
    ∷ (
      87 ∷ 121 ∷ 115 ∷ 122 ∷ 101 ∷ 100 ∷ 194 ∷ 179 ∷ 101 ∷ 109 ∷ 32 ∷ 110 ∷ 97 ∷ 32 ∷ 111 ∷ 98 ∷ 105
          ∷ 97 ∷ 100 ∷ [],
      codes "away",
    )
    ∷ (
      87 ∷ 121 ∷ 115 ∷ 122 ∷ 101 ∷ 100 ∷ 194 ∷ 179 ∷ 101 ∷ 109 ∷ 32 ∷ 119 ∷ 121 ∷ 114 ∷ 122 ∷ 117
          ∷ 99 ∷ 105 ∷ 195 ∷ 166 ∷ 32 ∷ 194 ∷ 109 ∷ 105 ∷ 101 ∷ 99 ∷ 105 ∷ [],
      codes "away",
    )
    ∷ (
      87 ∷ 121 ∷ 115 ∷ 122 ∷ 101 ∷ 100 ∷ 194 ∷ 179 ∷ 101 ∷ 109 ∷ 32 ∷ 100 ∷ 111 ∷ 32 ∷ 107 ∷ 105
          ∷ 98 ∷ 101 ∷ 108 ∷ 107 ∷ 97 ∷ [],
      codes "away",
    )
    ∷ (
      82 ∷ 111 ∷ 122 ∷ 109 ∷ 97 ∷ 119 ∷ 105 ∷ 97 ∷ 109 ∷ 32 ∷ 112 ∷ 114 ∷ 122 ∷ 101 ∷ 122 ∷ 32 ∷ 116
          ∷ 101 ∷ 108 ∷ 101 ∷ 102 ∷ 111 ∷ 110 ∷ [],
      codes "away",
    )
    ∷ (
      90 ∷ 109 ∷ 121 ∷ 119 ∷ 97 ∷ 109 ∷ 32 ∷ 110 ∷ 97 ∷ 99 ∷ 122 ∷ 121 ∷ 110 ∷ 105 ∷ 97 ∷ [],
      codes "away",
    )
    ∷ (
      74 ∷ 101 ∷ 115 ∷ 116 ∷ 101 ∷ 109 ∷ 32 ∷ 119 ∷ 32 ∷ 194 ∷ 179 ∷ 195 ∷ 179 ∷ 194 ∷ 191 ∷ 107
          ∷ 117 ∷ [],
      codes "away",
    )
    ∷ (
      90 ∷ 97 ∷ 115 ∷ 110 ∷ 194 ∷ 185 ∷ 194 ∷ 179 ∷ 101 ∷ 109 ∷ 32 ∷ 110 ∷ 97 ∷ 100 ∷ 32 ∷ 107 ∷ 108
          ∷ 97 ∷ 119 ∷ 105 ∷ 97 ∷ 116 ∷ 117 ∷ 114 ∷ 194 ∷ 185 ∷ [],
      codes "away",
    )
    ∷ (
      78 ∷ 105 ∷ 101 ∷ 100 ∷ 111 ∷ 115 ∷ 116 ∷ 195 ∷ 170 ∷ 112 ∷ 110 ∷ 121 ∷ 32 ∷ 110 ∷ 97 ∷ 32
          ∷ 100 ∷ 194 ∷ 179 ∷ 117 ∷ 194 ∷ 191 ∷ 101 ∷ 106 ∷ [],
      codes "xa",
    )
    ∷ (194 ∷ 112 ∷ 105 ∷ 195 ∷ 170 ∷ [], codes "xa")
    ∷ (80 ∷ 114 ∷ 97 ∷ 99 ∷ 117 ∷ 106 ∷ 195 ∷ 170 ∷ [], codes "xa")
    ∷ (
      87 ∷ 121 ∷ 115 ∷ 122 ∷ 101 ∷ 100 ∷ 194 ∷ 179 ∷ 101 ∷ 109 ∷ 32 ∷ 112 ∷ 111 ∷ 32 ∷ 122 ∷ 97
          ∷ 107 ∷ 117 ∷ 112 ∷ 121 ∷ [],
      codes "xa",
    )
    ∷ (
      87 ∷ 121 ∷ 106 ∷ 101 ∷ 99 ∷ 104 ∷ 97 ∷ 194 ∷ 179 ∷ 101 ∷ 109 ∷ 32 ∷ 110 ∷ 97 ∷ 32 ∷ 119 ∷ 97
          ∷ 107 ∷ 97 ∷ 99 ∷ 106 ∷ 101 ∷ [],
      codes "xa",
    )
    ∷ (
      78 ∷ 105 ∷ 101 ∷ 32 ∷ 112 ∷ 114 ∷ 122 ∷ 101 ∷ 115 ∷ 122 ∷ 107 ∷ 97 ∷ 100 ∷ 122 ∷ 97 ∷ 195
          ∷ 166 ∷ [],
      codes "dnd",
    )
    ∷ (80 ∷ 114 ∷ 97 ∷ 99 ∷ 117 ∷ 106 ∷ 195 ∷ 170 ∷ [], codes "dnd")
    ∷ (80 ∷ 114 ∷ 111 ∷ 103 ∷ 114 ∷ 97 ∷ 109 ∷ 117 ∷ 106 ∷ 195 ∷ 170 ∷ [], codes "dnd")
    ∷ (
      78 ∷ 105 ∷ 101 ∷ 32 ∷ 106 ∷ 101 ∷ 115 ∷ 116 ∷ 101 ∷ 109 ∷ 32 ∷ 119 ∷ 32 ∷ 110 ∷ 97 ∷ 115 ∷ 116
          ∷ 114 ∷ 111 ∷ 106 ∷ 117 ∷ [],
      codes "dnd",
    )
    ∷ []
