-- ===== src/Historical/Mapping.antt =====
-- IcebergSchemaMapping of internal/services/duckdb.go: the column of each field that the UI names.
use velocity_engine_backend.Prelude.{String, [], ◌∷◌}
use velocity_engine_backend.Prelude.Maps.{Map}

unfoldable pub iceberg_schema_mapping : Map String String
iceberg_schema_mapping =
    ("_event_timestamp", "event_timestamp")
    ∷ ("_event_id", "event_id")
    ∷ ("_category", "category")
    ∷ ("_event_type", "event_type")
    ∷ ("_version", "version")
    ∷ ("_data.authCode", "authcode")
    ∷ ("_data.subRequestId", "subrequestid")
    ∷ ("_data.aua", "aua")
    ∷ ("_data.sa", "sa")
    ∷ ("_data.asa", "asa")
    ∷ ("_data.ver", "ver")
    ∷ ("_data.tid", "tid")
    ∷ ("_data.licenseId", "licenseid")
    ∷ ("_data.reqDateTime", "reqdatetime")
    ∷ ("_data.tknUsedFlag", "tknusedflag")
    ∷ ("_data.tknType", "tkntype")
    ∷ ("_data.pidTs", "pidts")
    ∷ ("_data.pidVersion", "pidversion")
    ∷ ("_data.piUsesFlag", "piusesflag")
    ∷ ("_data.paUsesFlag", "pausesflag")
    ∷ ("_data.pfaUsesFlag", "pfausesflag")
    ∷ ("_data.bioUsesFlag", "biousesflag")
    ∷ ("_data.btFMRUsesFlag", "btfmrusesflag")
    ∷ ("_data.btFIRUsesFlag", "btfirusesflag")
    ∷ ("_data.btIIRUsesFlag", "btiirusesflag")
    ∷ ("_data.pinUsesFlag", "pinusesflag")
    ∷ ("_data.otpUsesFlag", "otpusesflag")
    ∷ ("_data.piUsedFlag", "piusedflag")
    ∷ ("_data.paUsedFlag", "pausedflag")
    ∷ ("_data.pfaUsedFlag", "pfausedflag")
    ∷ ("_data.bioUsedFlag", "biousedflag")
    ∷ ("_data.btFMRUsedFlag", "btfmrusedflag")
    ∷ ("_data.btFIRUsedFlag", "btfirusedflag")
    ∷ ("_data.btIIRUsedFlag", "btiirusedflag")
    ∷ ("_data.pinUsedFlag", "pinusedflag")
    ∷ ("_data.otpUsedFlag", "otpusedflag")
    ∷ ("_data.otpIdentifier", "otpidentifier")
    ∷ ("_data.lang", "lang")
    ∷ ("_data.piNameUsedFlag", "pinameusedflag")
    ∷ ("_data.piMs", "pims")
    ∷ ("_data.piMv", "pimv")
    ∷ ("_data.piMatchScore", "pimatchscore")
    ∷ ("_data.piLNameUsedFlag", "pilnameusedflag")
    ∷ ("_data.piLNameMs", "pilnamems")
    ∷ ("_data.piLNameMv", "pilnamemv")
    ∷ ("_data.piLNameMatchScore", "pilnamematchscore")
    ∷ ("_data.piPhoneUsedFlag", "piphoneusedflag")
    ∷ ("_data.piEmailUsedFlag", "piemailusedflag")
    ∷ ("_data.piGenderUsedFlag", "pigenderusedflag")
    ∷ ("_data.piGender", "pigender")
    ∷ ("_data.piDOBUsedFlag", "pidobusedflag")
    ∷ ("_data.piDOB", "pidob")
    ∷ ("_data.pi_DOBTUsedFlag", "pi_dobtusedflag")
    ∷ ("_data.piDOBT", "pidobt")
    ∷ ("_data.piAgeUsed_flag", "piageused_flag")
    ∷ ("_data.piAge", "piage")
    ∷ ("_data.pfaAddressUsedFlag", "pfaaddressusedflag")
    ∷ ("_data.pfaAddressMs", "pfaaddressms")
    ∷ ("_data.pfaAddressMv", "pfaaddressmv")
    ∷ ("_data.pfaMatchScore", "pfamatchscore")
    ∷ ("_data.pfaLaddrUsedFlag", "pfaladdrusedflag")
    ∷ ("_data.pfaLocalAddressMs", "pfalocaladdressms")
    ∷ ("_data.pfaLocalAddressMv", "pfalocaladdressmv")
    ∷ ("_data.pfaLocalAddressMatcScore", "pfalocaladdressmatcscore")
    ∷ ("_data.paMs", "pams")
    ∷ ("_data.paCareOfUsedFlag", "pacareofusedflag")
    ∷ ("_data.paHouseUsedFlag", "pahouseusedflag")
    ∷ ("_data.paStreetUsedFlag", "pastreetusedflag")
    ∷ ("_data.paLmUsedFlag", "palmusedflag")
    ∷ ("_data.paLOCUsedFlag", "palocusedflag")
    ∷ ("_data.paVTCUsedFlag", "pavtcusedflag")
    ∷ ("_data.paVTC", "pavtc")
    ∷ ("_data.paPOUsedFlag", "papousedflag")
    ∷ ("_data.paPO", "papo")
    ∷ ("_data.paSubDistrictUsedFlag", "pasubdistrictusedflag")
    ∷ ("_data.paSubDistrict", "pasubdistrict")
    ∷ ("_data.paDistrictUsedFlag", "padistrictusedflag")
    ∷ ("_data.paDistrict", "padistrict")
    ∷ ("_data.paStateUsedFlag", "pastateusedflag")
    ∷ ("_data.paState", "pastate")
    ∷ ("_data.paPCUsedFlag", "papcusedflag")
    ∷ ("_data.paPC", "papc")
    ∷ ("_data.fmrCount", "fmrcount")
    ∷ ("_data.firCount", "fircount")
    ∷ ("_data.iirCount", "iircount")
    ∷ ("_data.fingerMatchScore", "fingermatchscore")
    ∷ ("_data.uidaiTFMR", "uidaitfmr")
    ∷ ("_data.auaTFMR", "auatfmr")
    ∷ ("_data.fingerMatchThreshold", "fingermatchthreshold")
    ∷ ("_data.fmrGalleryType", "fmrgallerytype")
    ∷ ("_data.fmrGalleryVendor", "fmrgalleryvendor")
    ∷ ("_data.fmrSDKVendor", "fmrsdkvendor")
    ∷ ("_data.fmrSDKVersion", "fmrsdkversion")
    ∷ ("_data.firGalleryType", "firgallerytype")
    ∷ ("_data.firGalleryVendor", "firgalleryvendor")
    ∷ ("_data.firSDKVendor", "firsdkvendor")
    ∷ ("_data.firSDKVersion", "firsdkversion")
    ∷ ("_data.iirGalleryType", "iirgallerytype")
    ∷ ("_data.iirGalleryVendor", "iirgalleryvendor")
    ∷ ("_data.iirSDKVendor", "iirsdkvendor")
    ∷ ("_data.iirSDKVersion", "iirsdkversion")
    ∷ ("_data.authResult", "authresult")
    ∷ ("_data.errorCode", "errorcode")
    ∷ ("_data.errorClassification", "errorclassification")
    ∷ ("_data.responseDateTime", "responsedatetime")
    ∷ ("_data.authDuration", "authduration")
    ∷ ("_data.fdc", "fdc")
    ∷ ("_data.idc", "idc")
    ∷ ("_data.udc", "udc")
    ∷ ("_data.locationLat", "locationlat")
    ∷ ("_data.locationLong", "locationlong")
    ∷ ("_data.locationVTCCode", "locationvtccode")
    ∷ ("_data.locationSubDistrictCode", "locationsubdistrictcode")
    ∷ ("_data.locationDistrictCode", "locationdistrictcode")
    ∷ ("_data.locationStateCode", "locationstatecode")
    ∷ ("_data.locationPC", "locationpc")
    ∷ ("_data.enrolmentReferenceId", "enrolmentreferenceid")
    ∷ ("_data.residentGender", "residentgender")
    ∷ ("_data.residentBirth_Day", "residentbirth_day")
    ∷ ("_data.residentBirthMonth", "residentbirthmonth")
    ∷ ("_data.residentBirthYear", "residentbirthyear")
    ∷ ("_data.residentDOB", "residentdob")
    ∷ ("_data.residentDOBT", "residentdobt")
    ∷ ("_data.residentAge", "residentage")
    ∷ ("_data.residentPincode", "residentpincode")
    ∷ ("_data.residentVTCCode", "residentvtccode")
    ∷ ("_data.residentVTCName", "residentvtcname")
    ∷ ("_data.residentPOName", "residentponame")
    ∷ ("_data.residentSubDistrictCode", "residentsubdistrictcode")
    ∷ ("_data.residentSubDistrictName", "residentsubdistrictname")
    ∷ ("_data.residentDistrictCode", "residentdistrictcode")
    ∷ ("_data.residentDistrictName", "residentdistrictname")
    ∷ ("_data.residentStateCode", "residentstatecode")
    ∷ ("_data.residentStateName", "residentstatename")
    ∷ ("_data.uidGenerationDate", "uidgenerationdate")
    ∷ ("_data.txn", "txn")
    ∷ ("_data.authType", "authtype")
    ∷ ("_data.hashUID", "hashuid")
    ∷ ("_data.locationAlt", "locationalt")
    ∷ ("_data.lot", "lot")
    ∷ ("_data.bfdDoneFlag", "bfddoneflag")
    ∷ ("_data.fingerMatchingType", "fingermatchingtype")
    ∷ ("_data.fingerFusionPerfomed", "fingerfusionperfomed")
    ∷ ("_data.irisMatchScore", "irismatchscore")
    ∷ ("_data.irisThreshold", "iristhreshold")
    ∷ ("_data.irisMatchingType", "irismatchingtype")
    ∷ ("_data.irisFusionPerfomed", "irisfusionperfomed")
    ∷ ("_data.authXMLSize", "authxmlsize")
    ∷ ("_data.pidSize", "pidsize")
    ∷ ("_data.dataType", "datatype")
    ∷ ("_data.skeyScheme", "skeyscheme")
    ∷ ("_data.sskType", "ssktype")
    ∷ ("_data.ki", "ki")
    ∷ ("_data.kycFlag", "kycflag")
    ∷ ("_data.actionCodes", "actioncodes")
    ∷ ("_data.registeredDeviceSoftwareId", "registereddevicesoftwareid")
    ∷ ("_data.registeredDeviceSoftwareVersion", "registereddevicesoftwareversion")
    ∷ ("_data.deviceProviderId", "deviceproviderid")
    ∷ ("_data.deviceCode", "devicecode")
    ∷ ("_data.modelId", "modelid")
    ∷ ("_data.certExpiryDate", "certexpirydate")
    ∷ ("_data.subErrorCode", "suberrorcode")
    ∷ ("_data.authenticationMode", "authenticationmode")
    ∷ ("_data.faceUses", "faceuses")
    ∷ ("_data.faceUsed", "faceused")
    ∷ ("_data.faceMatchScore", "facematchscore")
    ∷ ("_data.faceMatchThreshold", "facematchthreshold")
    ∷ ("_data.faceMatchType", "facematchtype")
    ∷ ("_data.faceFusionDone", "facefusiondone")
    ∷ ("_data.faceMultimodalityFusionScore", "facemultimodalityfusionscore")
    ∷ ("_data.faceMultimodalityFusionThreshold", "facemultimodalityfusionthreshold")
    ∷ ("_data.faceSdkVendor", "facesdkvendor")
    ∷ ("_data.faceSdkVersion", "facesdkversion")
    ∷ ("_data.deviceMetaData", "devicemetadata")
    ∷ ("_data.deepPrintGalleryType", "deepprintgallerytype")
    ∷ ("_data.deepPrintGalleryVendor", "deepprintgalleryvendor")
    ∷ ("_data.deepPrintSdkVendor", "deepprintsdkvendor")
    ∷ ("_data.deepPrintSdkVersion", "deepprintsdkversion")
    ∷ ("_data.deepPrintMatchScoreFinger1", "deepprintmatchscorefinger1")
    ∷ ("_data.deepPrintMatchScoreFinger2", "deepprintmatchscorefinger2")
    ∷ ("_data.deepPrintMatchIsPerfomed", "deepprintmatchisperfomed")
    ∷ ("_data.deepPrintMatchResult", "deepprintmatchresult")
    ∷ ("_data.serverId", "serverid")
    ∷ []
