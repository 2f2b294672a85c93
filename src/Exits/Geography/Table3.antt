-- ===== src/Exits/Geography/Table3.antt =====
-- The UN M49 regions of countries by ISO code, part 3 of 3 (modules/exits/countries_table.go).
use Prim.Native.String.{String}
use solstein.Base.{List, [], ◌∷◌}
use solstein.Exits.Geography.Row.{Country, row}

abbrev pub countries3 : List (String × Country)
countries3 =
    row "PN" "Pitcairn" "oceania" "polynesia" ""
    ∷ row "PR" "Puerto Rico" "americas" "latin-america-and-the-caribbean" "caribbean"
    ∷ row "PS" "State of Palestine" "asia" "western-asia" ""
    ∷ row "PT" "Portugal" "europe" "southern-europe" ""
    ∷ row "PW" "Palau" "oceania" "micronesia" ""
    ∷ row "PY" "Paraguay" "americas" "latin-america-and-the-caribbean" "south-america"
    ∷ row "QA" "Qatar" "asia" "western-asia" ""
    ∷ row "RE" "Réunion" "africa" "sub-saharan-africa" "eastern-africa"
    ∷ row "RO" "Romania" "europe" "eastern-europe" ""
    ∷ row "RS" "Serbia" "europe" "southern-europe" ""
    ∷ row "RU" "Russian Federation" "europe" "eastern-europe" ""
    ∷ row "RW" "Rwanda" "africa" "sub-saharan-africa" "eastern-africa"
    ∷ row "SA" "Saudi Arabia" "asia" "western-asia" ""
    ∷ row "SB" "Solomon Islands" "oceania" "melanesia" ""
    ∷ row "SC" "Seychelles" "africa" "sub-saharan-africa" "eastern-africa"
    ∷ row "SD" "Sudan" "africa" "northern-africa" ""
    ∷ row "SE" "Sweden" "europe" "northern-europe" ""
    ∷ row "SG" "Singapore" "asia" "south-eastern-asia" ""
    ∷ row "SH" "Saint Helena" "africa" "sub-saharan-africa" "western-africa"
    ∷ row "SI" "Slovenia" "europe" "southern-europe" ""
    ∷ row "SJ" "Svalbard and Jan Mayen Islands" "europe" "northern-europe" ""
    ∷ row "SK" "Slovakia" "europe" "eastern-europe" ""
    ∷ row "SL" "Sierra Leone" "africa" "sub-saharan-africa" "western-africa"
    ∷ row "SM" "San Marino" "europe" "southern-europe" ""
    ∷ row "SN" "Senegal" "africa" "sub-saharan-africa" "western-africa"
    ∷ row "SO" "Somalia" "africa" "sub-saharan-africa" "eastern-africa"
    ∷ row "SR" "Suriname" "americas" "latin-america-and-the-caribbean" "south-america"
    ∷ row "SS" "South Sudan" "africa" "sub-saharan-africa" "eastern-africa"
    ∷ row "ST" "Sao Tome and Principe" "africa" "sub-saharan-africa" "middle-africa"
    ∷ row "SV" "El Salvador" "americas" "latin-america-and-the-caribbean" "central-america"
    ∷ row "SX" "Sint Maarten (Dutch part)" "americas" "latin-america-and-the-caribbean" "caribbean"
    ∷ row "SY" "Syrian Arab Republic" "asia" "western-asia" ""
    ∷ row "SZ" "Eswatini" "africa" "sub-saharan-africa" "southern-africa"
    ∷ row "TC" "Turks and Caicos Islands" "americas" "latin-america-and-the-caribbean" "caribbean"
    ∷ row "TD" "Chad" "africa" "sub-saharan-africa" "middle-africa"
    ∷ row "TF" "French Southern Territories" "africa" "sub-saharan-africa" "eastern-africa"
    ∷ row "TG" "Togo" "africa" "sub-saharan-africa" "western-africa"
    ∷ row "TH" "Thailand" "asia" "south-eastern-asia" ""
    ∷ row "TJ" "Tajikistan" "asia" "central-asia" ""
    ∷ row "TK" "Tokelau" "oceania" "polynesia" ""
    ∷ row "TL" "Timor-Leste" "asia" "south-eastern-asia" ""
    ∷ row "TM" "Turkmenistan" "asia" "central-asia" ""
    ∷ row "TN" "Tunisia" "africa" "northern-africa" ""
    ∷ row "TO" "Tonga" "oceania" "polynesia" ""
    ∷ row "TR" "Türkiye" "asia" "western-asia" ""
    ∷ row "TT" "Trinidad and Tobago" "americas" "latin-america-and-the-caribbean" "caribbean"
    ∷ row "TV" "Tuvalu" "oceania" "polynesia" ""
    ∷ row "TW" "Taiwan" "asia" "eastern-asia" ""
    ∷ row "TZ" "United Republic of Tanzania" "africa" "sub-saharan-africa" "eastern-africa"
    ∷ row "UA" "Ukraine" "europe" "eastern-europe" ""
    ∷ row "UG" "Uganda" "africa" "sub-saharan-africa" "eastern-africa"
    ∷ row "UM" "United States Minor Outlying Islands" "oceania" "micronesia" ""
    ∷ row "US" "United States of America" "americas" "northern-america" ""
    ∷ row "UY" "Uruguay" "americas" "latin-america-and-the-caribbean" "south-america"
    ∷ row "UZ" "Uzbekistan" "asia" "central-asia" ""
    ∷ row "VA" "Holy See" "europe" "southern-europe" ""
    ∷ row "VC" "Saint Vincent and the Grenadines" "americas" "latin-america-and-the-caribbean"
        "caribbean"
    ∷ row "VE" "Venezuela (Bolivarian Republic of)" "americas" "latin-america-and-the-caribbean"
        "south-america"
    ∷ row "VG" "British Virgin Islands" "americas" "latin-america-and-the-caribbean" "caribbean"
    ∷ row "VI" "United States Virgin Islands" "americas" "latin-america-and-the-caribbean"
        "caribbean"
    ∷ row "VN" "Viet Nam" "asia" "south-eastern-asia" ""
    ∷ row "VU" "Vanuatu" "oceania" "melanesia" ""
    ∷ row "WF" "Wallis and Futuna Islands" "oceania" "polynesia" ""
    ∷ row "WS" "Samoa" "oceania" "polynesia" ""
    ∷ row "XK" "Kosovo" "europe" "southern-europe" ""
    ∷ row "YE" "Yemen" "asia" "western-asia" ""
    ∷ row "YT" "Mayotte" "africa" "sub-saharan-africa" "eastern-africa"
    ∷ row "ZA" "South Africa" "africa" "sub-saharan-africa" "southern-africa"
    ∷ row "ZM" "Zambia" "africa" "sub-saharan-africa" "eastern-africa"
    ∷ row "ZW" "Zimbabwe" "africa" "sub-saharan-africa" "eastern-africa"
    ∷ []
