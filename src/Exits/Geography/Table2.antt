-- ===== src/Exits/Geography/Table2.antt =====
-- The UN M49 regions of countries by ISO code, part 2 of 3 (modules/exits/countries_table.go).
use Prim.Native.String.{String}
use solstein.Base.{List, [], ◌∷◌}
use solstein.Exits.Geography.Row.{Country, row}

abbrev pub countries2 : List (String × Country)
countries2 =
    row "GT" "Guatemala" "americas" "latin-america-and-the-caribbean" "central-america"
    ∷ row "GU" "Guam" "oceania" "micronesia" ""
    ∷ row "GW" "Guinea-Bissau" "africa" "sub-saharan-africa" "western-africa"
    ∷ row "GY" "Guyana" "americas" "latin-america-and-the-caribbean" "south-america"
    ∷ row "HK" "China, Hong Kong Special Administrative Region" "asia" "eastern-asia" ""
    ∷ row "HM" "Heard Island and McDonald Islands" "oceania" "australia-and-new-zealand" ""
    ∷ row "HN" "Honduras" "americas" "latin-america-and-the-caribbean" "central-america"
    ∷ row "HR" "Croatia" "europe" "southern-europe" ""
    ∷ row "HT" "Haiti" "americas" "latin-america-and-the-caribbean" "caribbean"
    ∷ row "HU" "Hungary" "europe" "eastern-europe" ""
    ∷ row "ID" "Indonesia" "asia" "south-eastern-asia" ""
    ∷ row "IE" "Ireland" "europe" "northern-europe" ""
    ∷ row "IL" "Israel" "asia" "western-asia" ""
    ∷ row "IM" "Isle of Man" "europe" "northern-europe" ""
    ∷ row "IN" "India" "asia" "southern-asia" ""
    ∷ row "IO" "British Indian Ocean Territory" "africa" "sub-saharan-africa" "eastern-africa"
    ∷ row "IQ" "Iraq" "asia" "western-asia" ""
    ∷ row "IR" "Iran (Islamic Republic of)" "asia" "southern-asia" ""
    ∷ row "IS" "Iceland" "europe" "northern-europe" ""
    ∷ row "IT" "Italy" "europe" "southern-europe" ""
    ∷ row "JE" "Jersey" "europe" "northern-europe" ""
    ∷ row "JM" "Jamaica" "americas" "latin-america-and-the-caribbean" "caribbean"
    ∷ row "JO" "Jordan" "asia" "western-asia" ""
    ∷ row "JP" "Japan" "asia" "eastern-asia" ""
    ∷ row "KE" "Kenya" "africa" "sub-saharan-africa" "eastern-africa"
    ∷ row "KG" "Kyrgyzstan" "asia" "central-asia" ""
    ∷ row "KH" "Cambodia" "asia" "south-eastern-asia" ""
    ∷ row "KI" "Kiribati" "oceania" "micronesia" ""
    ∷ row "KM" "Comoros" "africa" "sub-saharan-africa" "eastern-africa"
    ∷ row "KN" "Saint Kitts and Nevis" "americas" "latin-america-and-the-caribbean" "caribbean"
    ∷ row "KP" "Democratic People's Republic of Korea" "asia" "eastern-asia" ""
    ∷ row "KR" "Republic of Korea" "asia" "eastern-asia" ""
    ∷ row "KW" "Kuwait" "asia" "western-asia" ""
    ∷ row "KY" "Cayman Islands" "americas" "latin-america-and-the-caribbean" "caribbean"
    ∷ row "KZ" "Kazakhstan" "asia" "central-asia" ""
    ∷ row "LA" "Lao People's Democratic Republic" "asia" "south-eastern-asia" ""
    ∷ row "LB" "Lebanon" "asia" "western-asia" ""
    ∷ row "LC" "Saint Lucia" "americas" "latin-america-and-the-caribbean" "caribbean"
    ∷ row "LI" "Liechtenstein" "europe" "western-europe" ""
    ∷ row "LK" "Sri Lanka" "asia" "southern-asia" ""
    ∷ row "LR" "Liberia" "africa" "sub-saharan-africa" "western-africa"
    ∷ row "LS" "Lesotho" "africa" "sub-saharan-africa" "southern-africa"
    ∷ row "LT" "Lithuania" "europe" "northern-europe" ""
    ∷ row "LU" "Luxembourg" "europe" "western-europe" ""
    ∷ row "LV" "Latvia" "europe" "northern-europe" ""
    ∷ row "LY" "Libya" "africa" "northern-africa" ""
    ∷ row "MA" "Morocco" "africa" "northern-africa" ""
    ∷ row "MC" "Monaco" "europe" "western-europe" ""
    ∷ row "MD" "Republic of Moldova" "europe" "eastern-europe" ""
    ∷ row "ME" "Montenegro" "europe" "southern-europe" ""
    ∷ row "MF" "Saint Martin (French Part)" "americas" "latin-america-and-the-caribbean" "caribbean"
    ∷ row "MG" "Madagascar" "africa" "sub-saharan-africa" "eastern-africa"
    ∷ row "MH" "Marshall Islands" "oceania" "micronesia" ""
    ∷ row "MK" "North Macedonia" "europe" "southern-europe" ""
    ∷ row "ML" "Mali" "africa" "sub-saharan-africa" "western-africa"
    ∷ row "MM" "Myanmar" "asia" "south-eastern-asia" ""
    ∷ row "MN" "Mongolia" "asia" "eastern-asia" ""
    ∷ row "MO" "China, Macao Special Administrative Region" "asia" "eastern-asia" ""
    ∷ row "MP" "Northern Mariana Islands" "oceania" "micronesia" ""
    ∷ row "MQ" "Martinique" "americas" "latin-america-and-the-caribbean" "caribbean"
    ∷ row "MR" "Mauritania" "africa" "sub-saharan-africa" "western-africa"
    ∷ row "MS" "Montserrat" "americas" "latin-america-and-the-caribbean" "caribbean"
    ∷ row "MT" "Malta" "europe" "southern-europe" ""
    ∷ row "MU" "Mauritius" "africa" "sub-saharan-africa" "eastern-africa"
    ∷ row "MV" "Maldives" "asia" "southern-asia" ""
    ∷ row "MW" "Malawi" "africa" "sub-saharan-africa" "eastern-africa"
    ∷ row "MX" "Mexico" "americas" "latin-america-and-the-caribbean" "central-america"
    ∷ row "MY" "Malaysia" "asia" "south-eastern-asia" ""
    ∷ row "MZ" "Mozambique" "africa" "sub-saharan-africa" "eastern-africa"
    ∷ row "NA" "Namibia" "africa" "sub-saharan-africa" "southern-africa"
    ∷ row "NC" "New Caledonia" "oceania" "melanesia" ""
    ∷ row "NE" "Niger" "africa" "sub-saharan-africa" "western-africa"
    ∷ row "NF" "Norfolk Island" "oceania" "australia-and-new-zealand" ""
    ∷ row "NG" "Nigeria" "africa" "sub-saharan-africa" "western-africa"
    ∷ row "NI" "Nicaragua" "americas" "latin-america-and-the-caribbean" "central-america"
    ∷ row "NL" "Netherlands (Kingdom of the)" "europe" "western-europe" ""
    ∷ row "NO" "Norway" "europe" "northern-europe" ""
    ∷ row "NP" "Nepal" "asia" "southern-asia" ""
    ∷ row "NR" "Naoero" "oceania" "micronesia" ""
    ∷ row "NU" "Niue" "oceania" "polynesia" ""
    ∷ row "NZ" "New Zealand" "oceania" "australia-and-new-zealand" ""
    ∷ row "OM" "Oman" "asia" "western-asia" ""
    ∷ row "PA" "Panama" "americas" "latin-america-and-the-caribbean" "central-america"
    ∷ row "PE" "Peru" "americas" "latin-america-and-the-caribbean" "south-america"
    ∷ row "PF" "French Polynesia" "oceania" "polynesia" ""
    ∷ row "PG" "Papua New Guinea" "oceania" "melanesia" ""
    ∷ row "PH" "Philippines" "asia" "south-eastern-asia" ""
    ∷ row "PK" "Pakistan" "asia" "southern-asia" ""
    ∷ row "PL" "Poland" "europe" "eastern-europe" ""
    ∷ row "PM" "Saint Pierre and Miquelon" "americas" "northern-america" ""
    ∷ []
