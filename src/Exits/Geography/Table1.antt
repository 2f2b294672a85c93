-- ===== src/Exits/Geography/Table1.antt =====
-- The UN M49 regions of countries by ISO code, part 1 of 3 (modules/exits/countries_table.go).
use Prim.Native.String.{String}
use solstein.Base.{List, [], ◌∷◌}
use solstein.Exits.Geography.Row.{Country, row}

abbrev pub countries1 : List (String × Country)
countries1 =
    row "AD" "Andorra" "europe" "southern-europe" ""
    ∷ row "AE" "United Arab Emirates" "asia" "western-asia" ""
    ∷ row "AF" "Afghanistan" "asia" "southern-asia" ""
    ∷ row "AG" "Antigua and Barbuda" "americas" "latin-america-and-the-caribbean" "caribbean"
    ∷ row "AI" "Anguilla" "americas" "latin-america-and-the-caribbean" "caribbean"
    ∷ row "AL" "Albania" "europe" "southern-europe" ""
    ∷ row "AM" "Armenia" "asia" "western-asia" ""
    ∷ row "AO" "Angola" "africa" "sub-saharan-africa" "middle-africa"
    ∷ row "AQ" "Antarctica" "" "" ""
    ∷ row "AR" "Argentina" "americas" "latin-america-and-the-caribbean" "south-america"
    ∷ row "AS" "American Samoa" "oceania" "polynesia" ""
    ∷ row "AT" "Austria" "europe" "western-europe" ""
    ∷ row "AU" "Australia" "oceania" "australia-and-new-zealand" ""
    ∷ row "AW" "Aruba" "americas" "latin-america-and-the-caribbean" "caribbean"
    ∷ row "AX" "Åland Islands" "europe" "northern-europe" ""
    ∷ row "AZ" "Azerbaijan" "asia" "western-asia" ""
    ∷ row "BA" "Bosnia and Herzegovina" "europe" "southern-europe" ""
    ∷ row "BB" "Barbados" "americas" "latin-america-and-the-caribbean" "caribbean"
    ∷ row "BD" "Bangladesh" "asia" "southern-asia" ""
    ∷ row "BE" "Belgium" "europe" "western-europe" ""
    ∷ row "BF" "Burkina Faso" "africa" "sub-saharan-africa" "western-africa"
    ∷ row "BG" "Bulgaria" "europe" "eastern-europe" ""
    ∷ row "BH" "Bahrain" "asia" "western-asia" ""
    ∷ row "BI" "Burundi" "africa" "sub-saharan-africa" "eastern-africa"
    ∷ row "BJ" "Benin" "africa" "sub-saharan-africa" "western-africa"
    ∷ row "BL" "Saint Barthélemy" "americas" "latin-america-and-the-caribbean" "caribbean"
    ∷ row "BM" "Bermuda" "americas" "northern-america" ""
    ∷ row "BN" "Brunei Darussalam" "asia" "south-eastern-asia" ""
    ∷ row "BO" "Bolivia (Plurinational State of)" "americas" "latin-america-and-the-caribbean"
        "south-america"
    ∷ row "BQ" "Bonaire, Sint Eustatius and Saba" "americas" "latin-america-and-the-caribbean"
        "caribbean"
    ∷ row "BR" "Brazil" "americas" "latin-america-and-the-caribbean" "south-america"
    ∷ row "BS" "Bahamas" "americas" "latin-america-and-the-caribbean" "caribbean"
    ∷ row "BT" "Bhutan" "asia" "southern-asia" ""
    ∷ row "BV" "Bouvet Island" "americas" "latin-america-and-the-caribbean" "south-america"
    ∷ row "BW" "Botswana" "africa" "sub-saharan-africa" "southern-africa"
    ∷ row "BY" "Belarus" "europe" "eastern-europe" ""
    ∷ row "BZ" "Belize" "americas" "latin-america-and-the-caribbean" "central-america"
    ∷ row "CA" "Canada" "americas" "northern-america" ""
    ∷ row "CC" "Cocos (Keeling) Islands" "oceania" "australia-and-new-zealand" ""
    ∷ row "CD" "Democratic Republic of the Congo" "africa" "sub-saharan-africa" "middle-africa"
    ∷ row "CF" "Central African Republic" "africa" "sub-saharan-africa" "middle-africa"
    ∷ row "CG" "Congo" "africa" "sub-saharan-africa" "middle-africa"
    ∷ row "CH" "Switzerland" "europe" "western-europe" ""
    ∷ row "CI" "Côte d’Ivoire" "africa" "sub-saharan-africa" "western-africa"
    ∷ row "CK" "Cook Islands" "oceania" "polynesia" ""
    ∷ row "CL" "Chile" "americas" "latin-america-and-the-caribbean" "south-america"
    ∷ row "CM" "Cameroon" "africa" "sub-saharan-africa" "middle-africa"
    ∷ row "CN" "China" "asia" "eastern-asia" ""
    ∷ row "CO" "Colombia" "americas" "latin-america-and-the-caribbean" "south-america"
    ∷ row "CR" "Costa Rica" "americas" "latin-america-and-the-caribbean" "central-america"
    ∷ row "CU" "Cuba" "americas" "latin-america-and-the-caribbean" "caribbean"
    ∷ row "CV" "Cabo Verde" "africa" "sub-saharan-africa" "western-africa"
    ∷ row "CW" "Curaçao" "americas" "latin-america-and-the-caribbean" "caribbean"
    ∷ row "CX" "Christmas Island" "oceania" "australia-and-new-zealand" ""
    ∷ row "CY" "Cyprus" "asia" "western-asia" ""
    ∷ row "CZ" "Czechia" "europe" "eastern-europe" ""
    ∷ row "DE" "Germany" "europe" "western-europe" ""
    ∷ row "DJ" "Djibouti" "africa" "sub-saharan-africa" "eastern-africa"
    ∷ row "DK" "Denmark" "europe" "northern-europe" ""
    ∷ row "DM" "Dominica" "americas" "latin-america-and-the-caribbean" "caribbean"
    ∷ row "DO" "Dominican Republic" "americas" "latin-america-and-the-caribbean" "caribbean"
    ∷ row "DZ" "Algeria" "africa" "northern-africa" ""
    ∷ row "EC" "Ecuador" "americas" "latin-america-and-the-caribbean" "south-america"
    ∷ row "EE" "Estonia" "europe" "northern-europe" ""
    ∷ row "EG" "Egypt" "africa" "northern-africa" ""
    ∷ row "EH" "Western Sahara" "africa" "northern-africa" ""
    ∷ row "ER" "Eritrea" "africa" "sub-saharan-africa" "eastern-africa"
    ∷ row "ES" "Spain" "europe" "southern-europe" ""
    ∷ row "ET" "Ethiopia" "africa" "sub-saharan-africa" "eastern-africa"
    ∷ row "FI" "Finland" "europe" "northern-europe" ""
    ∷ row "FJ" "Fiji" "oceania" "melanesia" ""
    ∷ row "FK" "Falkland Islands (Malvinas)" "americas" "latin-america-and-the-caribbean"
        "south-america"
    ∷ row "FM" "Micronesia (Federated States of)" "oceania" "micronesia" ""
    ∷ row "FO" "Faroe Islands" "europe" "northern-europe" ""
    ∷ row "FR" "France" "europe" "western-europe" ""
    ∷ row "GA" "Gabon" "africa" "sub-saharan-africa" "middle-africa"
    ∷ row "GB" "United Kingdom of Great Britain and Northern Ireland" "europe" "northern-europe" ""
    ∷ row "GD" "Grenada" "americas" "latin-america-and-the-caribbean" "caribbean"
    ∷ row "GE" "Georgia" "asia" "western-asia" ""
    ∷ row "GF" "French Guiana" "americas" "latin-america-and-the-caribbean" "south-america"
    ∷ row "GG" "Guernsey" "europe" "northern-europe" ""
    ∷ row "GH" "Ghana" "africa" "sub-saharan-africa" "western-africa"
    ∷ row "GI" "Gibraltar" "europe" "southern-europe" ""
    ∷ row "GL" "Greenland" "americas" "northern-america" ""
    ∷ row "GM" "Gambia" "africa" "sub-saharan-africa" "western-africa"
    ∷ row "GN" "Guinea" "africa" "sub-saharan-africa" "western-africa"
    ∷ row "GP" "Guadeloupe" "americas" "latin-america-and-the-caribbean" "caribbean"
    ∷ row "GQ" "Equatorial Guinea" "africa" "sub-saharan-africa" "middle-africa"
    ∷ row "GR" "Greece" "europe" "southern-europe" ""
    ∷ row "GS" "South Georgia and the South Sandwich Islands" "americas"
        "latin-america-and-the-caribbean" "south-america"
    ∷ []
