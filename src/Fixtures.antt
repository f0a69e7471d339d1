-- ===== src/Fixtures.antt =====
-- The sample catalog of the tests, as a file and as servers. (internal/testutil/fixtures.go)
use leasewebassignment.Base.{ℕ, List, [], ◌∷◌, ◌++◌}
use leasewebassignment.Text.{Bytes, codes}
use leasewebassignment.Model.{Server}

-- `SampleServersCSV`
abbrev pub sample_servers_csv : Bytes
sample_servers_csv =
    codes "Model,RAM,HDD,Location,Price\n"
    ++ codes "Dell R210,16GBDDR3,2x2TBSATA2,AmsterdamAMS-01,49.99\n"
    ++ codes "HP DL180,32GBDDR3,8x2TBSATA2,AmsterdamAMS-01,119.00\n"
    ++ codes "RH2288,128GBDDR4,4x480GBSSD,AmsterdamAMS-01,227.99\n"
    ++ codes "Dell R730XD,64GBDDR4,4x2TBSATA2,Washington D.C.WDC-01,319.99\n"
    ++ codes "HP DL180G6,32GBDDR3,8x300GBSAS,DallasDAL-10,170.99\n"
    ++ codes "Dell R930,64GBDDR4,2x120GBSSD,SingaporeSIN-11,1328.99\n"
    ++ codes "HP DL120G7,4GBDDR3,4x1TBSATA2,AmsterdamAMS-01,39.99\n"
    ++ codes "Dell R210-II,16GBDDR3,2x500GBSATA2,FrankfurtFRA-10,74.00\n"
    ++ codes "HP DL380eG8,64GBDDR3,8x2TBSATA2,FrankfurtFRA-10,165.99\n"
    ++ codes "Supermicro SC846,32GBDDR3,24x1TBSATA2,Washington D.C.WDC-01,421.99\n"

-- `SampleServers`; `cents` is the `float64` that a literal with two decimals stands for, which is given
-- here in hundredths.
abbrev pub sample_servers {ℓ} : {F : Type ℓ} → (ℕ → F) → List (Server F)
sample_servers cents =
    record {
      model = codes "Dell R210";
      ram = codes "16GBDDR3";
      hdd = codes "2x2TBSATA2";
      location = codes "AmsterdamAMS-01";
      price = cents 4999;
    }
    ∷ record {
      model = codes "HP DL180";
      ram = codes "32GBDDR3";
      hdd = codes "8x2TBSATA2";
      location = codes "AmsterdamAMS-01";
      price = cents 11900;
    }
    ∷ record {
      model = codes "RH2288";
      ram = codes "128GBDDR4";
      hdd = codes "4x480GBSSD";
      location = codes "AmsterdamAMS-01";
      price = cents 22799;
    }
    ∷ record {
      model = codes "Dell R730XD";
      ram = codes "64GBDDR4";
      hdd = codes "4x2TBSATA2";
      location = codes "Washington D.C.WDC-01";
      price = cents 31999;
    }
    ∷ record {
      model = codes "HP DL180G6";
      ram = codes "32GBDDR3";
      hdd = codes "8x300GBSAS";
      location = codes "DallasDAL-10";
      price = cents 17099;
    }
    ∷ record {
      model = codes "Dell R930";
      ram = codes "64GBDDR4";
      hdd = codes "2x120GBSSD";
      location = codes "SingaporeSIN-11";
      price = cents 132899;
    }
    ∷ record {
      model = codes "HP DL120G7";
      ram = codes "4GBDDR3";
      hdd = codes "4x1TBSATA2";
      location = codes "AmsterdamAMS-01";
      price = cents 3999;
    }
    ∷ record {
      model = codes "Dell R210-II";
      ram = codes "16GBDDR3";
      hdd = codes "2x500GBSATA2";
      location = codes "FrankfurtFRA-10";
      price = cents 7400;
    }
    ∷ record {
      model = codes "HP DL380eG8";
      ram = codes "64GBDDR3";
      hdd = codes "8x2TBSATA2";
      location = codes "FrankfurtFRA-10";
      price = cents 16599;
    }
    ∷ record {
      model = codes "Supermicro SC846";
      ram = codes "32GBDDR3";
      hdd = codes "24x1TBSATA2";
      location = codes "Washington D.C.WDC-01";
      price = cents 42199;
    }
    ∷ []
