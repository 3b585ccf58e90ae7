-- ===== src/Qgen/Defaults.antt =====
-- varsub.c: the table `defaults`, the texts of each query up to its first NULL.
use structor.Common.{ℕ, zero, suc, List, [], ◌∷◌, get_elem?, Option, none}
use structor.Text.{Text, codes}

abbrev defaults_17_to_24 : List (List Text)
defaults_17_to_24 =
    (codes "Brand#23" ∷ (codes "MED BOX" ∷ []))
    ∷ ((codes "300" ∷ [])
        ∷ ((codes "Brand#12"
              ∷ (codes "Brand#23"
                  ∷ (codes "Brand#34" ∷ (codes "1" ∷ (codes "10" ∷ (codes "20" ∷ []))))))
            ∷ ((codes "forest" ∷ (codes "1994-01-01" ∷ (codes "CANADA" ∷ [])))
                ∷ ((codes "SAUDI ARABIA" ∷ [])
                    ∷ ((codes "13"
                          ∷ (codes "31"
                              ∷ (codes "23"
                                  ∷ (codes "29"
                                      ∷ (codes "30" ∷ (codes "18" ∷ (codes "17" ∷ [])))))))
                        ∷ (([]) ∷ (([]) ∷ [])))))))

abbrev defaults_9_to_16 : List (List Text)
defaults_9_to_16 =
    (codes "green" ∷ [])
    ∷ ((codes "1993-10-01" ∷ [])
        ∷ ((codes "GERMANY" ∷ (codes "0.0001" ∷ []))
            ∷ ((codes "MAIL" ∷ (codes "SHIP" ∷ (codes "1994-01-01" ∷ [])))
                ∷ ((codes "special" ∷ (codes "requests" ∷ []))
                    ∷ ((codes "1995-09-01" ∷ [])
                        ∷ ((codes "1996-01-01" ∷ [])
                            ∷ ((codes "Brand#45"
                                  ∷ (codes "MEDIUM POLISHED"
                                      ∷ (codes "49"
                                          ∷ (codes "14"
                                              ∷ (codes "23"
                                                  ∷ (codes "45"
                                                      ∷ (codes "19"
                                                          ∷ (codes "3"
                                                            ∷ (codes "36"
                                                            ∷ (codes "9" ∷ []))))))))))
                                ∷ defaults_17_to_24)))))))

abbrev pub defaults : List (List Text)
defaults =
    (codes "90" ∷ [])
    ∷ ((codes "15" ∷ (codes "BRASS" ∷ (codes "EUROPE" ∷ [])))
        ∷ ((codes "BUILDING" ∷ (codes "1995-03-15" ∷ []))
            ∷ ((codes "1993-07-01" ∷ [])
                ∷ ((codes "ASIA" ∷ (codes "1994-01-01" ∷ []))
                    ∷ ((codes "1994-01-01" ∷ (codes ".06" ∷ (codes "24" ∷ [])))
                        ∷ ((codes "FRANCE" ∷ (codes "GERMANY" ∷ []))
                            ∷ ((codes "BRAZIL"
                                  ∷ (codes "AMERICA" ∷ (codes "ECONOMY ANODIZED STEEL" ∷ [])))
                                ∷ defaults_9_to_16)))))))

-- A row of the table; none of a query that has no row.
abbrev pub defaults_of : ℕ → Option (List Text)
defaults_of zero = none
defaults_of (suc q) = get_elem? defaults q
